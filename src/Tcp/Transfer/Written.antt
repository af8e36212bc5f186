-- ===== src/Tcp/Transfer/Written.antt =====
-- `handleWrite` sends what waits, and nothing twice.
use clear_moon.Prelude.{
  ℕ, ◌+◌, ◌≤◌, ◌≡◌, refl, sym, ap, ◌∙◌, inl, inr, Bool, true, false, not, ◌&&◌, ◌++◌, Option, none,
  some, ◌>>=◌, Bytes, take, ltb, leb, Option-cases, if◌then◌else◌, ◌==◌, append_assoc,
}
use mathlib.Core.Path.{fun_ext}
use clear_moon.OrdMap.{number_key}
use clear_moon.Buffer.{Buffer, SysResult, failed, done, readable_bytes, write_fd}
use clear_moon.Buffer.Contents.{contents, peek_all-contents}
use clear_moon.Buffer.Descriptor.{write_fd-contents}
use clear_moon.Reactor.Channel.{writing_off}
use clear_moon.Tcp.Connection.{
  Connection, wrote, sent_chunk, closed_fd, log, is_writing, cancel_idle_timer, reset_idle_timer,
  run_after,
}
use clear_moon.Tcp.Transfer.{
  eagain, errno_of, has_output, write_complete, count, write_out, drain, finish_file, send_chunk,
  write_plain, file_to_send, write_behind, handle_write,
}
use clear_moon.Tcp.Transfer.Kept.{
  sent, Kept, Keeps, Keeps-then, Keeps-if, on_channel-Keeps, log_if-Kept, reset_idle_timer-Kept,
  handle_close-Keeps,
}

-- The events: a step that sends nothing new.
write_fd_failed : (e : ℕ) (b : Buffer) → write_fd (failed e) b ≡ some b
unfolding write_fd
write_fd_failed e b = refl

write_out-Keeps :
    (result : SysResult ℕ) {s : Bytes} {r : ℕ} (c : Connection)
    → count result ≤ readable_bytes c.write_buffer
    → Kept s r c
    → Keeps s r (write_out result c)
unfolding write_out
write_out-Keeps (failed e) c le h = rw (write_fd_failed e c.write_buffer) (c, refl, h)
write_out-Keeps (done n) {s} {r} c le ((v, g, m), f, l) =
    let (b, e, w, d) = write_fd-contents n v le in
    rw (e, peek_all-contents v)
      (
        log (wrote (take n (contents c.write_buffer))) (record c { write_buffer = b }),
        refl,
        (
          (w, g, m),
          append_assoc (sent c.effects) (take n (contents c.write_buffer)) (contents b)
              ∙ ap (λ t. sent c.effects ++ t) d
              ∙ f,
          l,
        ),
      )

drain-Keeps :
    (result : SysResult ℕ) {s : Bytes} {r : ℕ} (c : Connection)
    → count result ≤ readable_bytes c.write_buffer
    → Kept s r c
    → Keeps s r (drain result c)
unfolding drain
drain-Keeps result {s} {r} c le h = Keeps-then s s r _ _ (write_out-Keeps result c le h) (λ m k.
    Keeps-if (ltb 0 (count result))
      (λ e.
        Keeps-then s s r _ _
          (Keeps-if (not (has_output m) && not m.sending_file)
            (λ d. on_channel-Keeps writing_off m k) (λ d. (m, refl, k)))
          (λ q j. (write_complete q, refl, log_if-Kept q.callbacks.on_write_complete q j)))
      (λ e. Keeps-if (errno_of result == eagain) (λ d. (m, refl, k)) (λ d. handle_close-Keeps m k)))

finish_file-Keeps :
    (fd : ℕ) {s : Bytes} {r : ℕ} (c : Connection) → Kept s r c → Keeps s r (finish_file fd c)
unfolding finish_file
finish_file-Keeps fd c h =
    on_channel-Keeps writing_off
      (record (log (closed_fd fd) c) { file_fd = none; sending_file = false }) h

send_chunk-Keeps :
    (result : SysResult ℕ) (fd : ℕ) {s : Bytes} {r : ℕ} (c : Connection)
    → Kept s r c
    → Keeps s r (send_chunk result fd c)
unfolding send_chunk
send_chunk-Keeps (failed e) fd {s} {r} c h =
    Keeps-if (e == eagain) (λ d. (c, refl, h))
      (λ d. Keeps-then s s r _ _ (finish_file-Keeps fd c h) (λ m k. handle_close-Keeps m k))
send_chunk-Keeps (done n) fd {s} {r} c h =
    let m : Connection =
      log (sent_chunk fd c.file_sent_offset n)
        (record c { file_sent_offset = c.file_sent_offset + n }) in
    Keeps-if (ltb 0 n && leb m.file_total_size m.file_sent_offset)
      (λ d.
        Keeps-then s s r _ _ (finish_file-Keeps fd m h)
          (λ q j. (write_complete q, refl, log_if-Kept q.callbacks.on_write_complete q j)))
      (λ d. (m, refl, h))

write_plain_idle :
    (again : SysResult ℕ) (c : Connection) → has_output c ≡ false → write_plain again c ≡ some c
unfolding write_plain
write_plain_idle again c e = rw e refl

write_behind-Keeps :
    (chunk again : SysResult ℕ) {s : Bytes} {r : ℕ} (c : Connection)
    → has_output c ≡ false
    → Kept s r c
    → Keeps s r (write_behind chunk again c)
unfolding write_behind
write_behind-Keeps chunk again c e h = elim (Option-cases (file_to_send c)) [
  | inl f ↦ rw (f, write_behind) (rw (write_plain_idle again c e) (c, refl, h))
  | inr (fd, f) ↦ rw (f, write_behind) (send_chunk-Keeps chunk fd c h)
]

reset_idle_timer_output : (c : Connection) → (reset_idle_timer c).write_buffer ≡ c.write_buffer
unfolding reset_idle_timer cancel_idle_timer run_after
reset_idle_timer_output c = refl

-- `handleWrite` on a connection with its write buffer and its channel in order fails nowhere, whatever
-- the kernel returns for the file and for the bytes, of which it takes no more than there are: what was
-- sent with what waits is the same bytes as before, buffer and channel stay in order, and the state
-- does not go back.
pub handle_write-Keeps :
    (result chunk again : SysResult ℕ) (s : Bytes) (r : ℕ) (c : Connection)
    → count result ≤ readable_bytes c.write_buffer
    → Kept s r c
    → Keeps s r (handle_write result chunk again c)
unfolding handle_write
handle_write-Keeps result chunk again s r c le h =
    Keeps-if (is_writing c)
      (λ y.
        let m : Connection = reset_idle_timer c in
        let k : Kept s r m = reset_idle_timer-Kept c h in
        Keeps-if (has_output m)
          (λ e.
            Keeps-then s s r _ _ (drain-Keeps result m (rw (reset_idle_timer_output c) le) k)
              (λ q j.
                Keeps-if (has_output q) (λ d. (q, refl, j))
                  (λ d. write_behind-Keeps chunk again q d j)))
          (λ e. write_behind-Keeps chunk again m e k))
      (λ y. (c, refl, h))

write_behind_any :
    (chunk again other : SysResult ℕ) (c : Connection)
    → has_output c ≡ false
    → write_behind chunk again c ≡ write_behind chunk other c
unfolding write_behind
write_behind_any chunk again other c e = elim (Option-cases (file_to_send c)) [
  | inl f ↦ rw (f, write_behind) (write_plain_idle again c e ∙ sym (write_plain_idle other c e))
  | inr (fd, f) ↦ rw (f, write_behind) refl
]

same_if :
    (t : Bool) {o o' u u' : Option Connection}
    → o ≡ o'
    → (t ≡ false → u ≡ u')
    → (if t then o else u) ≡ (if t then o' else u')
same_if true f g = f
same_if false f g = g refl

-- The last branch of `handleWrite`, for a connection without a file, is dead: what `write` would return
-- there plays no part, whatever the state.
pub handle_write_plain_is_dead :
    (result chunk again other : SysResult ℕ) (c : Connection)
    → handle_write result chunk again c ≡ handle_write result chunk other c
unfolding handle_write
handle_write_plain_is_dead result chunk again other c =
    let m : Connection = reset_idle_timer c in
    same_if (is_writing c)
      (same_if (has_output m)
        (ap (λ k. drain result m >>= k)
          (fun_ext λ q. same_if (has_output q) refl (write_behind_any chunk again other q)))
        (write_behind_any chunk again other m))
      (λ e. refl)
