-- ===== src/Tcp/Connection.antt =====
-- net/TcpConnection.h and TcpConnection.cc: the state, the timers and the closing of a connection. The
-- functions run in the loop's thread unless they say otherwise. What can be seen of a run from outside
-- is a list of effects, the last one first: bytes that the kernel took, callbacks, closed descriptors. A
-- callback is an effect only: what it does with the connection is a later operation.
pub mod Closing
use clear_moon.Prelude.{
  ℕ, zero, suc, ◌+◌, Bool, true, false, not, ◌&&◌, ◌||◌, List, [], ◌∷◌, ◌++◌, map, Option, none,
  some, ◌>>=◌, ◌>>◌, assert, Bytes, ◌==◌, if◌then◌else◌,
}
use clear_moon.OrdMap.{OrdMap, find, assign, erase, number_key}
use clear_moon.Buffer
use clear_moon.Buffer.{Buffer}
use clear_moon.Reactor.Channel
use clear_moon.Reactor.Channel.{enable_reading, enable_writing, disable_writing, remove}
use clear_moon.Reactor.Epoller.{Channel, Epoller}

pub data StateE : Type 0 where
  connecting connected disconnecting disconnected : StateE

pub data TimerCall : Type 0 where
  idle_timeout : TimerCall
  retransmit_timeout : ℕ → TimerCall

-- A timer that the loop will run: its id, the delay in milliseconds, and what it calls.
pub record Armed : Type 0 where
  pub timer_id : ℕ
  pub delay : ℕ
  pub timer_call : TimerCall

-- The timers of the loop; `next_id` is the id of the next one.
pub record Timers : Type 0 where
  pub next_id : ℕ
  pub armed : List Armed

pub record RetransmitEntry : Type 0 where
  pub data_ : Bytes
  pub retries : ℕ
  pub timer : Option ℕ

-- Which of the user's callbacks are set.
pub record Callbacks : Type 0 where
  pub on_connection : Bool
  pub on_message : Bool
  pub on_write_complete : Bool
  pub on_close : Bool

pub data Effect : Type 0 where
  wrote : Bytes → Effect
  sent_chunk : ℕ → ℕ → ℕ → Effect
  shut_write : Effect
  closed_fd : ℕ → Effect
  connection_callback message_callback write_complete_callback close_callback : Effect

-- What another thread leaves for the loop.
pub data Task : Type 0 where
  shutdown_task force_close_task : Task
  send_task : Bytes → Task
  send_file_task : Bytes → Task
  retransmit_task : Bytes → ℕ → Task
  ack_task : ℕ → Task

pub record Connection : Type 0 where
  pub state : StateE
  pub channel : Channel
  pub poller : Epoller
  pub timers : Timers
  pub write_buffer : Buffer
  pub read_buffer : Buffer
  pub callbacks : Callbacks
  pub file_fd : Option ℕ
  pub file_sent_offset : ℕ
  pub file_total_size : ℕ
  pub sending_file : Bool
  pub idle_timer : Option ℕ
  pub pending_retrans : OrdMap ℕ RetransmitEntry
  pub tasks : List Task
  pub effects : List Effect

abbrev pub create : Channel → Epoller → Timers → Callbacks → Connection
create ch p ts cbs = record {
  state = connecting;
  channel = ch;
  poller = p;
  timers = ts;
  write_buffer = Buffer.create;
  read_buffer = Buffer.create;
  callbacks = cbs;
  file_fd = none;
  file_sent_offset = 0;
  file_total_size = 0;
  sending_file = false;
  idle_timer = none;
  pending_retrans = [];
  tasks = [];
  effects = [];
}

abbrev pub is_connecting : StateE → Bool
is_connecting connecting = true
is_connecting _ = false

abbrev pub is_connected : StateE → Bool
is_connected connected = true
is_connected _ = false

abbrev pub is_disconnecting : StateE → Bool
is_disconnecting disconnecting = true
is_disconnecting _ = false

abbrev pub is_disconnected : StateE → Bool
is_disconnected disconnected = true
is_disconnected _ = false

abbrev pub is_open : StateE → Bool
is_open s = is_connected s || is_disconnecting s

abbrev pub log : Effect → Connection → Connection
log e c = record c { effects = e ∷ c.effects }

-- `if(callback) callback(...)`.
abbrev pub log_if : Bool → Effect → Connection → Connection
log_if true e c = log e c
log_if false e c = c

abbrev pub leave_task : Task → Connection → Connection
leave_task t c = record c { tasks = c.tasks ++ (t ∷ []) }

abbrev pub with_channel : Channel × Epoller → Connection → Connection
with_channel (ch, p) c = record c { channel = ch; poller = p }

-- An operation of the channel.
abbrev pub on_channel :
    (Channel → Epoller → Option (Channel × Epoller)) → Connection → Option Connection
on_channel f c = f c.channel c.poller >>= λ r. some (with_channel r c)

abbrev pub is_writing : Connection → Bool
is_writing c = c.channel.events.output

-- Timers: `loop_->cancel` and `loop_->runAfter`.
unfoldable pub without_id : ℕ → List Armed → List Armed
without_id n [] = []
without_id n (a ∷ rest) = if a.timer_id == n then without_id n rest else a ∷ without_id n rest

-- An id that is not valid is passed over.
unfoldable pub cancel : Option ℕ → Timers → Timers
cancel none ts = ts
cancel (some n) ts = record ts { armed = without_id n ts.armed }

unfoldable pub run_after : ℕ → TimerCall → Timers → ℕ × Timers
run_after delay call ts = (
  ts.next_id,
  record {
    next_id = suc ts.next_id;
    armed = record { timer_id = ts.next_id; delay = delay; timer_call = call } ∷ ts.armed;
  },
)

unfoldable pub cancel_idle_timer : Connection → Connection
cancel_idle_timer c = record c { timers = cancel c.idle_timer c.timers; idle_timer = none }

unfoldable pub cancel_each : OrdMap ℕ RetransmitEntry → Timers → Timers
cancel_each [] ts = ts
cancel_each ((seq, entry) ∷ rest) ts = cancel_each rest (cancel entry.timer ts)

unfoldable pub cancel_retransmits : Connection → Connection
cancel_retransmits c = record c {
  timers = cancel_each c.pending_retrans c.timers;
  pending_retrans = [];
}

abbrev pub timeout_ms : ℕ
timeout_ms = 60000

unfoldable pub reset_idle_timer : Connection → Connection
unfolding cancel_idle_timer run_after
reset_idle_timer c =
    let c = cancel_idle_timer c in
    let (n, ts) = run_after timeout_ms idle_timeout c.timers in
    record c { timers = ts; idle_timer = some n }

-- Closing.
abbrev pub log_closed : Option ℕ → Connection → Connection
log_closed none c = c
log_closed (some fd) c = log (closed_fd fd) c

unfoldable pub drop_file : Connection → Connection
drop_file c = record (log_closed c.file_fd c) {
  file_fd = none;
  file_sent_offset = 0;
  file_total_size = 0;
  sending_file = false;
}

unfoldable pub handle_close : Connection → Option Connection
unfolding cancel_idle_timer cancel_retransmits drop_file
handle_close c = if is_disconnected c.state then some c else do
  assert (is_open c.state)
  c ← on_channel remove (record c { state = disconnected })
  let c = cancel_retransmits (cancel_idle_timer (drop_file c))
  some (log_if c.callbacks.on_close close_callback c)

abbrev pub handle_error : Connection → Option Connection
handle_error = handle_close

unfoldable pub shutdown_in_loop : Connection → Option Connection
shutdown_in_loop c = let c = log shut_write c in if is_writing c then some c else handle_close c

unfoldable pub force_close_in_loop : Connection → Option Connection
force_close_in_loop c = if is_open c.state then handle_close c else some c

abbrev pub on_idle_timeout : Connection → Option Connection
on_idle_timeout = force_close_in_loop

-- `in_thread`: `runInLoop` runs the function at once in the loop's thread, and leaves it otherwise.
unfoldable pub shutdown : Bool → Connection → Option Connection
shutdown in_thread c =
    let closing = record c { state = disconnecting } in
    if is_connected c.state
    then if in_thread then shutdown_in_loop closing else some (leave_task shutdown_task closing)
    else some c

unfoldable pub force_close : Bool → Connection → Option Connection
force_close in_thread c =
    let closing = record c { state = disconnecting } in
    if is_open c.state
    then if in_thread
      then force_close_in_loop closing
      else some (leave_task force_close_task closing)
    else some c

unfoldable pub connect_established : Connection → Option Connection
connect_established c = do
  assert (is_connecting c.state)
  c ← on_channel enable_reading c
  let c = reset_idle_timer (record c { state = connected })
  some (log_if c.callbacks.on_connection connection_callback c)

abbrev pub destroyed : StateE → StateE
destroyed connected = disconnected
destroyed s = s

unfoldable pub connect_destroyed : Connection → Option Connection
connect_destroyed c =
    on_channel remove
      (cancel_retransmits (cancel_idle_timer (record c { state = destroyed c.state })))
