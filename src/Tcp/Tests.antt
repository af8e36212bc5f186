-- ===== src/Tcp/Tests.antt =====
-- A connection at concrete bytes.
use clear_moon.Prelude.{
  ℕ, ◌*◌, ◌^◌, ◌≤◌, ◌≡◌, refl, sym, true, [], ◌∷◌, ◌++◌, some, arith, Bytes, append-nil,
}
use clear_moon.Buffer.{Buffer, done, failed}
use clear_moon.Buffer.Contents.{IsValid}
use clear_moon.Reactor.Epoller.{Channel, Epoller, Events, Index, ctl_add, no_revents}
use clear_moon.Reactor.Epoller.Interest.{interest, control}
use clear_moon.Reactor.Channel.Listed.{Registered}
use clear_moon.Tcp.Connection.{
  Connection, Callbacks, wrote, connected, idle_timeout, handle_close, create,
}
use clear_moon.Tcp.Connection.Closing.{Closed, handle_close-Closed}
use clear_moon.Tcp.Transfer.{send_in_loop, handle_write}
use clear_moon.Tcp.Transfer.Kept.{Kept, Keeps, stream, send_in_loop-Keeps}
use clear_moon.Tcp.Transfer.Written.{handle_write-Keeps, handle_write_plain_is_dead}
use clear_moon.OrdMap.{find, number_key}
use clear_moon.Tcp.Connection.{RetransmitEntry}
use clear_moon.Tcp.Connection.Closing.{Runs}
use clear_moon.Tcp.Retransmit.Pending.{on_retransmit_timeout-again}
use clear_moon.Tcp.Retransmit.{on_retransmit_timeout, caculate_backoff_jitter}
use clear_moon.Tcp.Retransmit.Backoff.{caculate_backoff_jitter-le}

abbrev both : Events
both = record { input = true; output = true }

abbrev channel : Channel
channel = record {
  address = 200;
  fd = 7;
  events = both;
  revents = no_revents;
  added = true;
  index = Index.present;
}

abbrev poller : Epoller
poller = record { channel_map = (7, 200) ∷ []; calls = ctl_add 7 both ∷ [] }

channel-Registered : Registered channel poller
channel-Registered = record {
  list = (7, both) ∷ [];
  accepted = unfold interest control in refl;
  mapped = refl;
  watched = refl;
  known = refl;
}

abbrev all_callbacks : Callbacks
all_callbacks = record {
  on_connection = true;
  on_message = true;
  on_write_complete = true;
  on_close = true;
}

abbrev two_waiting : Buffer
two_waiting = record {
  write_index = 10;
  read_index = 8;
  buff = 0 ∷ 0 ∷ 0 ∷ 0 ∷ 0 ∷ 0 ∷ 0 ∷ 0 ∷ 1 ∷ 2 ∷ [];
}

-- One byte is sent and two wait.
abbrev busy : Connection
busy =
    record (create channel poller
      (record {
        next_id = 5;
        armed = record { timer_id = 4; delay = 60000; timer_call = idle_timeout } ∷ [];
      })
      all_callbacks) {
        state = connected;
        write_buffer = two_waiting;
        idle_timer = some 4;
        effects = wrote (0 ∷ []) ∷ [];
      }

two_waiting-IsValid : IsValid two_waiting
two_waiting-IsValid = omega arith

busy-Kept : Kept (0 ∷ 1 ∷ 2 ∷ []) 1 busy
busy-Kept = ((two_waiting-IsValid, channel-Registered, refl), refl, omega arith)

send_in_loop-Keeps_example :
    Keeps (0 ∷ 1 ∷ 2 ∷ 3 ∷ 4 ∷ []) 1 (send_in_loop (done 1) (3 ∷ 4 ∷ []) busy)
send_in_loop-Keeps_example =
    send_in_loop-Keeps (done 1) (3 ∷ 4 ∷ []) (0 ∷ 1 ∷ 2 ∷ []) 1 busy (omega arith) refl busy-Kept

handle_write-Keeps_example :
    Keeps (0 ∷ 1 ∷ 2 ∷ []) 1 (handle_write (done 1) (failed 11) (failed 11) busy)
handle_write-Keeps_example =
    handle_write-Keeps (done 1) (failed 11) (failed 11) (0 ∷ 1 ∷ 2 ∷ []) 1 busy (omega arith)
      busy-Kept

handle_write_plain_is_dead_example :
    handle_write (done 2) (failed 11) (done 1) busy
    ≡ handle_write (done 2) (failed 11) (failed 5) busy
handle_write_plain_is_dead_example =
    handle_write_plain_is_dead (done 2) (failed 11) (done 1) (failed 5) busy

handle_close-Closed_example : (c' : Connection) × (handle_close busy ≡ some c') × Closed busy c'
handle_close-Closed_example = handle_close-Closed busy refl channel-Registered

caculate_backoff_jitter-le_example :
    (caculate_backoff_jitter (λ x. x) 1 4 10 ≤ 10)
    × (caculate_backoff_jitter (λ x. x) 1 4 10 ≤ 1 * 2 ^ 4)
caculate_backoff_jitter-le_example = caculate_backoff_jitter-le (λ x. x) 1 4 10 (λ x. omega arith)

-- The message 3 4 was sent once, under the number 1.
abbrev entry : RetransmitEntry
entry = record { data_ = 3 ∷ 4 ∷ []; retries = 0; timer = some 3 }

abbrev pending : Connection
pending = record busy { pending_retrans = (1, entry) ∷ [] }

on_retransmit_timeout-again_example :
    (c' : Connection) × (k : ℕ) × (rest : Bytes) × (on_retransmit_timeout
        (λ x. x)
        some
        (done 1)
        1
        pending
      ≡ some c')
    × (stream c' ≡ (0 ∷ 1 ∷ 2 ∷ 3 ∷ 4 ∷ []) ++ rest)
    × (find 1 c'.pending_retrans ≡ some (record entry { retries = 1; timer = some k }))
    × Runs k c'.timers.armed
on_retransmit_timeout-again_example =
    on_retransmit_timeout-again (λ x. x) some (done 1) 1 entry pending
      (λ m. (m, [], refl, refl, sym (append-nil (stream m)))) refl (omega arith) (omega arith)
      (omega arith) refl (two_waiting-IsValid, channel-Registered, refl) (omega arith)
