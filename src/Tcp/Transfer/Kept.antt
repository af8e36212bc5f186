-- ===== src/Tcp/Transfer/Kept.antt =====
-- What it is that operations of a connection keep, that the closing of one keeps it, and `sendInLoop`.
use clear_moon.Prelude.{
  ℕ, ◌+◌, ◌≤◌, ◌≡◌, refl, sym, ap, ◌∙◌, subst, Bool, true, false, not, ◌&&◌, List, [], ◌∷◌, ◌++◌,
  Option, none, some, ◌>>=◌, arith, Bytes, length, take, drop, ltb, if◌then◌else◌, ◌==◌, take-all,
  take-append-drop, append_assoc, append-nil, length-drop, drop-all,
}
use clear_moon.OrdMap.{number_key}
use clear_moon.Buffer.{SysResult, failed, done, max_size}
use clear_moon.Buffer.Contents.{IsValid, contents, append-contents, length-contents}
use clear_moon.Reactor.Channel.{ChannelOp, apply, writing_on, removal}
use clear_moon.Reactor.Channel.Registered.{apply-Good}
use clear_moon.Reactor.Channel.Listed.{Registered}
use clear_moon.Tcp.Connection.{
  Connection, StateE, connecting, connected, disconnecting, disconnected, Effect, wrote, shut_write,
  write_complete_callback, close_callback, log, log_if, with_channel, on_channel, is_writing,
  is_connecting, is_open, is_disconnected, cancel_idle_timer, cancel_retransmits, reset_idle_timer,
  run_after, drop_file, log_closed, handle_close, shutdown_in_loop, force_close_in_loop,
}
use clear_moon.Tcp.Transfer.{
  has_output, write_complete, keep_rest, send_rest, first_try, send_in_loop,
}

-- The bytes that the kernel took, in order.
abbrev pub sent : List Effect → Bytes
sent [] = []
sent (wrote bytes ∷ es) = sent es ++ bytes
sent (_ ∷ es) = sent es

-- What was sent and what waits to be.
abbrev pub stream : Connection → Bytes
stream c = sent c.effects ++ contents c.write_buffer

abbrev pub rank : StateE → ℕ
rank connecting = 0
rank connected = 1
rank disconnecting = 2
rank disconnected = 3

abbrev pub Sane : Connection → Type 0
Sane c = IsValid c.write_buffer × Registered c.channel c.poller × (is_connecting c.state ≡ false)

-- The stream is `s`, and the state is at `r` at least.
abbrev pub Kept : Bytes → ℕ → Connection → Type 0
Kept s r c = Sane c × (stream c ≡ s) × (r ≤ rank c.state)

abbrev pub Keeps : Bytes → ℕ → Option Connection → Type 0
Keeps s r o = (c : Connection) × (o ≡ some c) × Kept s r c

open_of : (s : StateE) → is_connecting s ≡ false → is_disconnected s ≡ false → is_open s ≡ true
open_of connecting n e = cc
open_of connected n e = refl
open_of disconnecting n e = refl
open_of disconnected n e = cc

rank-le : (s : StateE) → rank s ≤ 3
rank-le connecting = omega arith
rank-le connected = omega arith
rank-le disconnecting = omega arith
rank-le disconnected = omega arith

pub Keeps-then :
    (s t : Bytes) (r : ℕ) (o : Option Connection) (k : Connection → Option Connection)
    → Keeps s r o
    → ((c : Connection) → Kept s r c → Keeps t r (k c))
    → Keeps t r (o >>= k)
Keeps-then s t r o k (c, e, h) f = let (c', e', h') = f c h in (c', rw e e', h')

pub Keeps-if :
    {s : Bytes} {r : ℕ} (t : Bool) {o u : Option Connection}
    → (t ≡ true → Keeps s r o)
    → (t ≡ false → Keeps s r u)
    → Keeps s r (if t then o else u)
Keeps-if true f g = f refl
Keeps-if false f g = g refl

module _ {s : Bytes} {r : ℕ} where
  pub on_channel-Keeps :
      (o : ChannelOp) (c : Connection) → Kept s r c → Keeps s r (on_channel (apply o) c)
  on_channel-Keeps o c ((v, g, n), e, l) =
      let (ch, p, f, g', _, _, _) = apply-Good o c.channel c.poller g in
      (with_channel (ch, p) c, rw f refl, ((v, g', n), e, l))

  pub log_if-Kept :
      (b : Bool) (c : Connection) → Kept s r c → Kept s r (log_if b write_complete_callback c)
  log_if-Kept true c h = h
  log_if-Kept false c h = h

  log_close-Kept : (b : Bool) (c : Connection) → Kept s r c → Kept s r (log_if b close_callback c)
  log_close-Kept true c h = h
  log_close-Kept false c h = h

  pub reset_idle_timer-Kept : (c : Connection) → Kept s r c → Kept s r (reset_idle_timer c)
  unfolding reset_idle_timer cancel_idle_timer run_after
  reset_idle_timer-Kept c h = h

  cancel_both-Kept :
      (c : Connection) → Kept s r c → Kept s r (cancel_retransmits (cancel_idle_timer c))
  unfolding cancel_retransmits cancel_idle_timer
  cancel_both-Kept c h = h

  log_closed-Kept : (fd : Option ℕ) (c : Connection) → Kept s r c → Kept s r (log_closed fd c)
  log_closed-Kept none c h = h
  log_closed-Kept (some n) c h = h

  drop_file-Kept : (c : Connection) → Kept s r c → Kept s r (drop_file c)
  unfolding drop_file
  drop_file-Kept c h = log_closed-Kept c.file_fd c h

  pub handle_close-Keeps : (c : Connection) → Kept s r c → Keeps s r (handle_close c)
  unfolding handle_close
  handle_close-Keeps c h =
      Keeps-if _ (λ e. (c, refl, h))
        (λ e.
          let ((v, g, n), f, l) = h in
          let open_ : is_open c.state ≡ true = open_of c.state n e in
          rw open_ (
            Keeps-then s s r _ _
              (on_channel-Keeps removal (record c { state = disconnected })
                ((v, g, refl), f, omega (arith, rank-le c.state)))
              (λ m k. (
                _,
                refl,
                log_close-Kept _ (cancel_retransmits (cancel_idle_timer (drop_file m)))
                    (cancel_both-Kept (drop_file m) (drop_file-Kept m k)),
              ))))

  pub shutdown_in_loop-Keeps : (c : Connection) → Kept s r c → Keeps s r (shutdown_in_loop c)
  unfolding shutdown_in_loop
  shutdown_in_loop-Keeps c h =
      Keeps-if _ (λ e. (log shut_write c, refl, h)) (λ e. handle_close-Keeps (log shut_write c) h)

  pub force_close_in_loop-Keeps : (c : Connection) → Kept s r c → Keeps s r (force_close_in_loop c)
  unfolding force_close_in_loop
  force_close_in_loop-Keeps c h = Keeps-if _ (λ e. handle_close-Keeps c h) (λ e. (c, refl, h))

not_less : (m n : ℕ) → ltb m n ≡ false → n ≤ m
not_less m n e = ground arith

-- The first try leaves the bytes from `n` on, the stream being `s` before them.
keep_rest-Keeps :
    (n : ℕ) (bytes s : Bytes) (r : ℕ) (c : Connection)
    → c.write_buffer.write_index + length bytes ≤ max_size
    → Kept s r c
    → Keeps (s ++ drop n bytes) r (keep_rest n bytes c)
unfolding keep_rest
keep_rest-Keeps n bytes s r c room h =
    let ((v, g, m), f, l) = h in
    let (b, a, w, d, _) = append-contents (drop n bytes) v (omega (arith, length-drop n bytes)) in
    let kept : Kept (s ++ drop n bytes) r (record c { write_buffer = b }) = (
      (w, g, m),
      ap (λ t. sent c.effects ++ t) d
          ∙ sym (append_assoc (sent c.effects) (contents c.write_buffer) (drop n bytes))
          ∙ ap (λ t. t ++ drop n bytes) f,
      l,
    ) in
    Keeps-if (ltb n (length bytes))
      (λ e. rw a (
        Keeps-if _ (λ y. (record c { write_buffer = b }, refl, kept))
          (λ y. on_channel-Keeps writing_on (record c { write_buffer = b }) kept)))
      (λ e.
        let none_left : s ≡ s ++ drop n bytes =
          sym (ap (λ t. s ++ t) (drop-all n bytes (not_less n (length bytes) e)) ∙ append-nil s) in
        (c, refl, (h.0, f ∙ none_left, l)))

send_rest-Keeps :
    (n : ℕ) (bytes s : Bytes) (r : ℕ) (c : Connection)
    → c.write_buffer.write_index + length bytes ≤ max_size
    → Kept s r c
    → Keeps (s ++ drop n bytes) r (send_rest n bytes c)
unfolding send_rest
send_rest-Keeps n bytes s r c room h =
    Keeps-then (s ++ drop n bytes) _ r _ _ (keep_rest-Keeps n bytes s r c room h)
      (λ m k. Keeps-if _ (λ e. shutdown_in_loop-Keeps m k) (λ e. (m, refl, k)))

pub nothing-waits :
    (c : Connection) → IsValid c.write_buffer → has_output c ≡ false → contents c.write_buffer ≡ []
nothing-waits c v e = empty _ (length-contents v ∙ ground arith)
  where
    empty : (bytes : Bytes) → length bytes ≡ 0 → bytes ≡ []
    empty [] h = refl
    empty (x ∷ xs) h = absurd (omega arith)

-- What the kernel took of the bytes goes behind what it took before, where nothing waited.
sent_on :
    (n : ℕ) (bytes s : Bytes) (r : ℕ) (c : Connection)
    → contents c.write_buffer ≡ []
    → Kept s r c
    → Kept (s ++ take n bytes) r (log (wrote (take n bytes)) c)
sent_on n bytes s r c empty (g, f, l) =
    let before : sent c.effects ≡ s =
      sym (append-nil (sent c.effects)) ∙ ap (λ t. sent c.effects ++ t) (sym empty) ∙ f in
    (
      g,
      ap (λ t. (sent c.effects ++ take n bytes) ++ t) empty
          ∙ append-nil (sent c.effects ++ take n bytes)
          ∙ ap (λ t. t ++ take n bytes) before,
      l,
    )

taken_and_left : (n : ℕ) (bytes s : Bytes) → (s ++ take n bytes) ++ drop n bytes ≡ s ++ bytes
taken_and_left n bytes s =
    append_assoc s (take n bytes) (drop n bytes) ∙ ap (λ t. s ++ t) (take-append-drop n bytes)

all_taken : (n : ℕ) (bytes : Bytes) → (n == length bytes) ≡ true → take n bytes ≡ bytes
all_taken n bytes e = take-all n bytes (ground arith)

first_try-Keeps :
    (result : SysResult ℕ) (bytes s : Bytes) (r : ℕ) (c : Connection)
    → c.write_buffer.write_index + length bytes ≤ max_size
    → contents c.write_buffer ≡ []
    → Kept s r c
    → Keeps (s ++ bytes) r (first_try result bytes c)
unfolding first_try
first_try-Keeps (failed e) bytes s r c room empty h = send_rest-Keeps 0 bytes s r c room h
first_try-Keeps (done n) bytes s r c room empty h =
    let m : Connection = log (wrote (take n bytes)) c in
    let k : Kept (s ++ take n bytes) r m = sent_on n bytes s r c empty h in
    Keeps-if (n == length bytes)
      (λ e. (
        write_complete m,
        refl,
        log_if-Kept m.callbacks.on_write_complete m
            (subst (λ t. Kept (s ++ t) r m) (all_taken n bytes e) k),
      ))
      (λ e.
        subst (λ t. Keeps t r (send_rest n bytes m)) (taken_and_left n bytes s)
          (send_rest-Keeps n bytes (s ++ take n bytes) r m room k))

-- `sendInLoop` on a connection that is not closed, with its write buffer and its channel in order and
-- room in the buffer, fails nowhere: whatever the kernel takes, the bytes come behind all that was sent
-- or waits, none lost, doubled or moved, the buffer and the channel stay in order, and the state does
-- not go back.
pub send_in_loop-Keeps :
    (result : SysResult ℕ) (bytes s : Bytes) (r : ℕ) (c : Connection)
    → c.write_buffer.write_index + length bytes ≤ max_size
    → is_disconnected c.state ≡ false
    → Kept s r c
    → Keeps (s ++ bytes) r (send_in_loop result bytes c)
unfolding send_in_loop
send_in_loop-Keeps result bytes s r c room alive h = rw alive (
    Keeps-if (not (is_writing c) && not (has_output c))
      (λ e.
        first_try-Keeps result bytes s r c room
          (nothing-waits c h.0.0 (idle (is_writing c) (has_output c) e)) h)
      (λ e. send_rest-Keeps 0 bytes s r c room h))
  where
    idle : (a b : Bool) → (not a && not b) ≡ true → b ≡ false
    idle a b e = ground arith
