-- ===== src/Tcp/Retransmit.antt =====
-- net/TcpConnection.h and TcpConnection.cc: messages that are sent again until they are acknowledged.
pub mod Backoff
pub mod Pending
use clear_moon.Prelude.{
  ℕ, zero, suc, ◌+◌, ◌*◌, ◌/◌, min, Bool, true, false, not, ◌&&◌, List, [], ◌∷◌, Option, none, some,
  ◌>>=◌, Bytes, length, ltb, leb, ◌==◌, if◌then◌else◌,
}
use clear_moon.OrdMap.{OrdMap, find, assign, erase, number_key}
use clear_moon.Buffer.{SysResult, failed, done}
use clear_moon.Tcp.Connection.{
  Connection, RetransmitEntry, retransmit_timeout, retransmit_task, ack_task, leave_task, cancel,
  run_after, force_close_in_loop, is_disconnected, is_writing,
}
use clear_moon.Tcp.Transfer.{send, send_in_loop, has_output}

abbrev pub base_timeout : ℕ
base_timeout = 1

abbrev pub max_timeout : ℕ
max_timeout = 10

abbrev pub max_retries : ℕ
max_retries = 5

-- The loop over the retries: it is left at the first that goes past half the maximum.
unfoldable pub double_up : ℕ → ℕ → ℕ → ℕ
double_up zero limit max_delay = limit
double_up (suc n) limit max_delay =
    let rest = double_up n (limit * 2) max_delay in
    if ltb (max_delay / 2) limit then max_delay else rest

unfoldable pub backoff_cap : ℕ → ℕ → ℕ → ℕ
unfolding double_up
backoff_cap base_delay retries max_delay = min (double_up retries base_delay max_delay) max_delay

-- `draw` is the distribution over 0 to `cap`, on the generator.
abbrev pub caculate_backoff_jitter : (ℕ → ℕ) → ℕ → ℕ → ℕ → ℕ
caculate_backoff_jitter draw base_delay retries max_delay =
    draw (backoff_cap base_delay retries max_delay)

-- The entry is in the map under its number, which is its `seq`.
unfoldable pub reset_retransmit_timer : (ℕ → ℕ) → ℕ → RetransmitEntry → Connection → Connection
reset_retransmit_timer draw seq entry c =
    let ts = cancel entry.timer c.timers in
    let timeout = caculate_backoff_jitter draw base_timeout entry.retries max_timeout in
    let (n, ts) = run_after timeout (retransmit_timeout seq) ts in
    record c {
      timers = ts;
      pending_retrans = assign seq (record entry { timer = some n }) c.pending_retrans;
    }

-- `SendFunc`.
unfoldable pub send_func : (ℕ → ℕ) → SysResult ℕ → Bytes → ℕ → Connection → Option Connection
unfolding reset_retransmit_timer
send_func draw result bytes seq c = do
  c ← send true result bytes c
  some (reset_retransmit_timer draw seq (record { data_ = bytes; retries = 0; timer = none }) c)

unfoldable pub send_with_retransmit :
    Bool → (ℕ → ℕ) → SysResult ℕ → Bytes → ℕ → Connection → Option Connection
unfolding send_func
send_with_retransmit in_thread draw result bytes seq c =
    if in_thread
    then send_func draw result bytes seq c
    else some (leave_task (retransmit_task bytes seq) c)

unfoldable pub ack_in_loop : ℕ → Connection → Connection
ack_in_loop seq c = elim (find seq c.pending_retrans) [
  | none ↦ c
  | some entry ↦ record c {
    timers = cancel entry.timer c.timers;
    pending_retrans = erase seq c.pending_retrans;
  }
]

unfoldable pub ack_received : Bool → ℕ → Connection → Connection
unfolding ack_in_loop
ack_received in_thread seq c = if in_thread then ack_in_loop seq c else leave_task (ack_task seq) c

-- Whether `sendInLoop` calls the callback for a completed write.
abbrev pub sends_all : SysResult ℕ → Bytes → Bool
sends_all (failed e) bytes = false
sends_all (done n) bytes = n == length bytes

abbrev pub completes : SysResult ℕ → Bytes → Connection → Bool
completes result bytes c =
    not (is_disconnected c.state)
    && (not (is_writing c) && not (has_output c))
    && sends_all result bytes
    && c.callbacks.on_write_complete

-- `user` is what that callback does with the connection, in the middle of the function. Behind the sending
-- the entry is used again: where it is gone from the map, the reference to it dangles, which is `none`.
unfoldable pub send_again :
    (ℕ → ℕ)
    → (Connection → Option Connection)
    → SysResult ℕ
    → ℕ
    → RetransmitEntry
    → Connection
    → Option Connection
unfolding reset_retransmit_timer
send_again draw user result seq entry c = do
  m ← send_in_loop result entry.data_ c
  c ← if completes result entry.data_ c then user m else some m
  e ← find seq c.pending_retrans
  some (reset_retransmit_timer draw seq (record e { retries = e.retries + 1 }) c)

unfoldable pub on_retransmit_timeout :
    (ℕ → ℕ) → (Connection → Option Connection) → SysResult ℕ → ℕ → Connection → Option Connection
unfolding send_again
on_retransmit_timeout draw user result seq c = elim (find seq c.pending_retrans) [
  | none ↦ some c
  | some entry ↦
      if leb max_retries entry.retries
      then force_close_in_loop (record c { pending_retrans = erase seq c.pending_retrans })
      else send_again draw user result seq entry c
]
