-- ===== src/Tcp/Retransmit/Pending.antt =====
-- A message that is sent again stays pending: its entry outlives the sending, which uses it afterwards.
use clear_moon.Prelude.{
  ℕ, ◌+◌, ◌≤◌, ◌<◌, ◌≡◌, refl, sym, ap, ◌∙◌, inl, Bool, true, false, not, ◌&&◌, [], ◌++◌,
  append-nil, Option, none, some, arith, Bytes, length, drop, take, ltb, leb, lt→ltb, ◌==◌, ==_iff,
  length-drop, length-append, if◌then◌else◌,
}
use clear_moon.OrdMap.{OrdMap, find, assign, number_key, find-assign}
use clear_moon.Buffer.{SysResult, failed, done, max_size, readable_bytes}
use clear_moon.Buffer.Contents.{IsValid, contents, append-contents, length-contents}
use clear_moon.Reactor.Channel.{writing_on}
use clear_moon.Reactor.Channel.Registered.{apply-Good}
use clear_moon.Reactor.Channel.Listed.{Registered}
use clear_moon.Tcp.Connection.{
  Connection, RetransmitEntry, cancel, run_after, is_writing, is_disconnected, is_disconnecting,
  with_channel, log, log_if, write_complete_callback, wrote,
}
use clear_moon.Tcp.Connection.Closing.{Runs}
use clear_moon.Tcp.Transfer.{
  has_output, count, write_complete, keep_rest, send_rest, first_try, send_in_loop,
}
use clear_moon.Tcp.Transfer.Kept.{Sane, stream, send_in_loop-Keeps}
use clear_moon.Tcp.Retransmit.{
  max_retries, completes, reset_retransmit_timer, send_again, on_retransmit_timeout,
}

abbrev Pending : OrdMap ℕ RetransmitEntry → Option Connection → Type 0
Pending m o = (c : Connection) × (o ≡ some c) × (c.pending_retrans ≡ m)

abbrev Waiting : OrdMap ℕ RetransmitEntry → Option Connection → Type 0
Waiting m o = (c : Connection) × (o ≡ some c) × (c.pending_retrans ≡ m) × (has_output c ≡ true)

choose :
    (P : Option Connection → Type 0) (b : Bool) {o u : Option Connection}
    → (b ≡ true → P o)
    → (b ≡ false → P u)
    → P (if b then o else u)
choose P true f g = f refl
choose P false f g = g refl

keep_rest-Waiting :
    (n : ℕ) (bytes : Bytes) (c : Connection)
    → n < length bytes
    → IsValid c.write_buffer
    → Registered c.channel c.poller
    → c.write_buffer.write_index + length bytes ≤ max_size
    → Waiting c.pending_retrans (keep_rest n bytes c)
unfolding keep_rest
keep_rest-Waiting n bytes c h v g room =
    let (b, a, w, d, _) = append-contents (drop n bytes) v (omega (arith, length-drop n bytes)) in
    let l : length (contents b) ≡ length (contents c.write_buffer) + length (drop n bytes) =
      ap length d ∙ length-append (contents c.write_buffer) (drop n bytes) in
    let out : ltb 0 (readable_bytes b) ≡ true =
      lt→ltb 0 (readable_bytes b) (omega (arith, l, length-contents w, length-drop n bytes)) in
    let (ch, p, f, _, _, _, _) = apply-Good writing_on c.channel c.poller g in
    let m : Connection = record c { write_buffer = b } in
    rw (lt→ltb n (length bytes) h, a)
      (choose (Waiting c.pending_retrans) (is_writing c) (λ y. (m, refl, refl, out))
        (λ y. (with_channel (ch, p) m, rw f refl, refl, out)))

send_rest-Pending :
    (n : ℕ) (bytes : Bytes) (c : Connection)
    → n < length bytes
    → IsValid c.write_buffer
    → Registered c.channel c.poller
    → c.write_buffer.write_index + length bytes ≤ max_size
    → Pending c.pending_retrans (send_rest n bytes c)
unfolding send_rest
send_rest-Pending n bytes c h v g room =
    let (m, e, p, out) = keep_rest-Waiting n bytes c h v g room in
    rw e (
      choose (Pending c.pending_retrans) (is_disconnecting m.state && not (has_output m))
        (λ b. absurd (contradicts (is_disconnecting m.state) (has_output m) b out))
        (λ b. (m, refl, p)))
  where
    contradicts : (a b : Bool) → (a && not b) ≡ true → b ≡ true → ⊥
    contradicts a b h k = ground arith

log_complete-Pending :
    (b : Bool) (c : Connection)
    → (log_if b write_complete_callback c).pending_retrans ≡ c.pending_retrans
log_complete-Pending true c = refl
log_complete-Pending false c = refl

first_try-Pending :
    (result : SysResult ℕ) (bytes : Bytes) (c : Connection)
    → 0 < length bytes
    → count result ≤ length bytes
    → IsValid c.write_buffer
    → Registered c.channel c.poller
    → c.write_buffer.write_index + length bytes ≤ max_size
    → Pending c.pending_retrans (first_try result bytes c)
unfolding first_try
first_try-Pending (failed e) bytes c h k v g room = send_rest-Pending 0 bytes c h v g room
first_try-Pending (done n) bytes c h k v g room =
    let m : Connection = log (wrote (take n bytes)) c in
    choose (Pending c.pending_retrans) (n == length bytes)
      (λ e. (write_complete m, refl, log_complete-Pending m.callbacks.on_write_complete m))
      (λ e. send_rest-Pending n bytes m (less n (length bytes) e k) v g room)
  where
    less : (n l : ℕ) → (n == l) ≡ false → n ≤ l → n < l
    less n l e k = ground arith

send_in_loop-Pending :
    (result : SysResult ℕ) (bytes : Bytes) (c : Connection)
    → 0 < length bytes
    → count result ≤ length bytes
    → IsValid c.write_buffer
    → Registered c.channel c.poller
    → c.write_buffer.write_index + length bytes ≤ max_size
    → Pending c.pending_retrans (send_in_loop result bytes c)
unfolding send_in_loop
send_in_loop-Pending result bytes c h k v g room =
    choose (Pending c.pending_retrans) (is_disconnected c.state) (λ e. (c, refl, refl))
      (λ e.
        choose (Pending c.pending_retrans) (not (is_writing c) && not (has_output c))
          (λ d. first_try-Pending result bytes c h k v g room)
          (λ d. send_rest-Pending 0 bytes c h v g room))

some_inj : {a b : Connection} → some a ≡ some b → a ≡ b
some_inj e = cc

-- What the callback for a completed write may do: it leaves the entry of the message where it is, and
-- what is sent and waits, and perhaps has more sent.
abbrev pub Leaves : ℕ → (Connection → Option Connection) → Type 0
Leaves seq user =
    (m : Connection)
    → (k : Connection) × (rest : Bytes) × (user m ≡ some k)
      × (find seq k.pending_retrans ≡ find seq m.pending_retrans)
      × (stream k ≡ stream m ++ rest)

-- With the callback or without it.
called_back :
    (seq : ℕ) (b : Bool) (user : Connection → Option Connection) (m : Connection)
    → Leaves seq user
    → (k : Connection) × (rest : Bytes) × ((if b then user m else some m) ≡ some k)
      × (find seq k.pending_retrans ≡ find seq m.pending_retrans)
      × (stream k ≡ stream m ++ rest)
called_back seq true user m l = l m
called_back seq false user m l = (m, [], refl, refl, sym (append-nil (stream m)))

-- A message that has been sent again fewer than five times, and is not empty, is sent once more when
-- its time is over: its bytes come behind all that was sent or waits, and what the callback for a
-- completed write sends, which runs in the middle of it, behind them. The message is pending then with
-- one retry more and a timer of the loop. That is so where that callback leaves the entry of the message
-- where it is (it neither acknowledges the message nor closes the connection), the connection is not
-- closed, the write buffer is in order and has room, the channel is registered, and the kernel takes no
-- more than there is.
pub on_retransmit_timeout-again :
    (draw : ℕ → ℕ) (user : Connection → Option Connection) (result : SysResult ℕ) (seq : ℕ)
    (entry : RetransmitEntry) (c : Connection)
    → Leaves seq user
    → find seq c.pending_retrans ≡ some entry
    → entry.retries < max_retries
    → 0 < length entry.data_
    → count result ≤ length entry.data_
    → is_disconnected c.state ≡ false
    → Sane c
    → c.write_buffer.write_index + length entry.data_ ≤ max_size
    → (c' : Connection) × (k : ℕ) × (rest : Bytes) × (on_retransmit_timeout draw user result seq c
        ≡ some c')
      × (stream c' ≡ (stream c ++ entry.data_) ++ rest)
      × (find seq c'.pending_retrans
          ≡ some (record entry { retries = entry.retries + 1; timer = some k }))
      × Runs k c'.timers.armed
unfolding on_retransmit_timeout send_again reset_retransmit_timer run_after
on_retransmit_timeout-again draw user result seq entry c leaves f few h k alive sane room =
    let (m, e, p) = send_in_loop-Pending result entry.data_ c h k sane.0 sane.1 room in
    let (n, g, (_, s, _)) =
      send_in_loop-Keeps result entry.data_ (stream c) 0 c room alive (sane, refl, omega arith) in
    let same : n ≡ m = some_inj (sym g ∙ e) in
    let (u, rest, called, there, t) =
      called_back seq (completes result entry.data_ c) user m leaves in
    let still : find seq u.pending_retrans ≡ some entry = there ∙ ap (find seq) p ∙ f in
    let again : RetransmitEntry = record entry { retries = entry.retries + 1 } in
    (
      reset_retransmit_timer draw seq again u,
      (cancel entry.timer u.timers).next_id,
      rest,
      rw (f, on_retransmit_timeout, not_yet entry.retries few, e, called, still, send_again) refl,
      t ∙ ap (λ x. x ++ rest) (ap stream (sym same) ∙ s),
      found seq _ u.pending_retrans,
      inl refl,
    )
  where
    not_yet : (n : ℕ) → n < max_retries → leb max_retries n ≡ false
    not_yet n h = ground arith

    found :
        (k : ℕ) (x : RetransmitEntry) (m : OrdMap ℕ RetransmitEntry)
        → find k (assign k x m) ≡ some x
    found k x m = ground (arith, find-assign k k x m, ==_iff k k)

-- Where that callback acknowledges the message, `onRetransmitTimeout` goes on with an entry that is gone.
pub acknowledged_inside_dangles :
    (draw : ℕ → ℕ) (user : Connection → Option Connection) (result : SysResult ℕ) (seq : ℕ)
    (entry : RetransmitEntry) (c : Connection) {m k : Connection}
    → find seq c.pending_retrans ≡ some entry
    → leb max_retries entry.retries ≡ false
    → send_in_loop result entry.data_ c ≡ some m
    → completes result entry.data_ c ≡ true
    → user m ≡ some k
    → find seq k.pending_retrans ≡ none
    → on_retransmit_timeout draw user result seq c ≡ none
unfolding on_retransmit_timeout send_again
acknowledged_inside_dangles draw user result seq entry c f few e b u g =
    rw (f, on_retransmit_timeout, few, e, b, u, g, send_again) refl
