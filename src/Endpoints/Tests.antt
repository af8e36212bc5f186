-- ===== src/Endpoints/Tests.antt =====
-- Attempts to connect.
use clear_moon.Prelude.{ℕ, List, Option, arith, ◌≡◌, refl, true, false, [], ◌∷◌, none, some}
use clear_moon.Reactor.Epoller.{
  Channel, Epoller, Revents, no_revents, Index, Events, ctl_add, ctl_del, update_channel,
  remove_channel,
}
use clear_moon.Reactor.Epoller.Interest.{interest, control}
use clear_moon.Reactor.Channel.{enable_writing, update, remove}
use clear_moon.Reactor.Channel
use clear_moon.Reactor.Channel.Listed.{Registered}
use clear_moon.Tcp.Connection
use clear_moon.Tcp.Connection.{
  Connection, connected, shutdown, shutdown_in_loop, handle_close, cancel_retransmits,
  cancel_idle_timer, drop_file, cancel_each, cancel,
}
use clear_moon.LoopPool.{LoopPool}
use clear_moon.Endpoints.Acceptor
use clear_moon.Endpoints.Acceptor.{Accepted, got, would_block, failed, handle_read}
use clear_moon.Endpoints.Acceptor.Accepts.{handle_read-accepts}
use clear_moon.Endpoints.TcpClient
use clear_moon.Endpoints.TcpClient.{
  TcpClient, established, shut, destroyed, disconnect, closes, run, remove_connection,
}
use clear_moon.Endpoints.TcpClient.Lost.{Fated, disconnected_is_destroyed_if_idle}
use clear_moon.Endpoints.TcpServer
use clear_moon.Endpoints.TcpServer.{TcpServer, Conn, arrives, leaves, serve}
use clear_moon.Endpoints.TcpServer.Held.{create-Serves, serve-Serves}
use clear_moon.Endpoints.TcpServer.Names.{Serves}
use clear_moon.Endpoints.Connector.{
  Connector, create, connecting, disconnected, is_connecting, in_progress, connect, handle_write,
  handle_event_at, fire, drop_channel,
}
use clear_moon.Endpoints.Connector.Rests.{Steady, has_id}
use clear_moon.Endpoints.Connector.Failure.{handle_event_at-cases, stale_timeout_ends_attempt}

abbrev watches_output : Events
watches_output = record { input = false; output = true }

abbrev no_one : Epoller
no_one = record { channel_map = []; calls = [] }

abbrev at_work : Epoller
at_work = record { channel_map = (5, 100) ∷ []; calls = ctl_add 5 watches_output ∷ [] }

abbrev its_channel : Channel
its_channel = record (Channel.create 100 5) {
  events = watches_output;
  added = true;
  index = Index.present;
}

abbrev attempt : Connector
attempt = record (create true at_work 1) {
  state = connecting;
  channel = some its_channel;
  sock = some 5;
  connect_timeout_id = some 0;
  armed = 0 ∷ [];
}

channel-Registered : Registered its_channel at_work
channel-Registered = record {
  list = (5, watches_output) ∷ [];
  accepted = unfold interest control in refl;
  mapped = refl;
  watched = refl;
  known = refl;
}

attempt-Steady : Steady attempt
unfolding has_id
attempt-Steady = (
  λ _. record {
    channel_of = its_channel;
    has_channel = refl;
    is_registered = channel-Registered;
    id_of = 0;
    has_timeout = refl;
    is_armed = refl;
  },
  λ e. cc,
)

abbrev refused_events : Revents
refused_events = record no_revents { err = true; hup = true; out = true }

-- What the kernel reports where the port is closed.
handle_event_at-cases_example : handle_event_at 100 true refused_events attempt ≡ none
handle_event_at-cases_example =
    handle_event_at-cases its_channel true refused_events attempt refl refl channel-Registered

abbrev failed_once : Connector
failed_once = record attempt {
  state = disconnected;
  channel = none;
  sock = none;
  closed = 5 ∷ [];
  poller = record { channel_map = []; calls = ctl_del 5 ∷ at_work.calls };
}

abbrev attempt_again : Connector
attempt_again = record failed_once {
  state = connecting;
  channel = some (record its_channel { fd = 6 });
  sock = some 6;
  connect_timeout_id = some 1;
  next_timer = 2;
  armed = 1 ∷ 0 ∷ [];
  poller = record {
    channel_map = (6, 100) ∷ [];
    calls = ctl_add 6 watches_output ∷ ctl_del 5 ∷ at_work.calls;
  };
}

free_again : Registered (Channel.create 100 6) failed_once.poller
free_again = record {
  list = [];
  accepted = unfold interest control in refl;
  mapped = refl;
  watched = refl;
  known = refl;
}

fails_once : handle_write true attempt ≡ some failed_once
unfolding handle_write drop_channel remove remove_channel
fails_once = refl

tries_again : connect 6 in_progress 100 failed_once ≡ some attempt_again
unfolding connect enable_writing update update_channel
tries_again = refl

still_armed : has_id 0 attempt.armed ≡ true
unfolding has_id
still_armed = refl

stale_timeout_ends_attempt_example :
    (is_connecting attempt_again.state ≡ true)
    × (has_id 0 attempt_again.armed ≡ true)
    × ((k : Connector) × (fire 0 attempt_again ≡ some k) × (k.state ≡ disconnected))
stale_timeout_ends_attempt_example =
    stale_timeout_ends_attempt 6 100 0 attempt attempt-Steady refl still_armed fails_once free_again
      tries_again

-- Two loops, and no connection yet.
abbrev two_loops : LoopPool ℕ
two_loops = record {
  loops = 10 ∷ 20 ∷ [];
  cur_num = 2;
  thread_num = 2;
  next_idx = 0;
  started = true;
}

abbrev server : TcpServer ℕ
server = TcpServer.create two_loops (Acceptor.create 100 3 no_one)

-- Two arrive, and the first leaves twice.
abbrev first_conn : Conn ℕ
first_conn = record { number = 1; io_loop = 10 }

serve-Serves_example :
    (r : TcpServer ℕ) × (serve
        (arrives ∷ arrives ∷ leaves first_conn ∷ leaves first_conn ∷ [])
        server
      ≡ some r)
    × Serves r
    × (r.next_conn_id ≡ 3)
serve-Serves_example =
    serve-Serves (arrives ∷ arrives ∷ leaves first_conn ∷ leaves first_conn ∷ []) server
      (omega arith, (omega arith, tt)) (omega arith)
      (create-Serves two_loops (Acceptor.create 100 3 no_one) (omega arith))

-- Connections are put into a list.
abbrev noted : ℕ → ℕ → List ℕ → Option (List ℕ)
noted fd peer l = some (fd ∷ l)

handle_read-accepts_example :
    (handle_read noted (got 7 1 ∷ failed ∷ got 8 2 ∷ would_block ∷ []) [] ≡ some (8 ∷ 7 ∷ [], []))
    × (handle_read noted (got 7 1 ∷ failed ∷ got 8 2 ∷ []) [] ≡ none)
handle_read-accepts_example = handle_read-accepts noted (got 7 1 ∷ failed ∷ got 8 2 ∷ []) [] [] refl

-- A client with its first connection, which is idle.
abbrev client : TcpClient
client = record (TcpClient.create no_one 0) {
  connection = some 1;
  next_id = 2;
  calls = established 1 ∷ [];
}

abbrev watches_input : Events
watches_input = record { input = true; output = false }

abbrev conn : Connection
conn =
    record (Connection.create (record its_channel { events = watches_input })
      (record { channel_map = (5, 100) ∷ []; calls = ctl_add 5 watches_input ∷ [] })
      (record { next_id = 0; armed = [] })
      (record {
        on_connection = false;
        on_message = false;
        on_write_complete = false;
        on_close = true;
      })) { state = connected }

conn-Registered : Registered conn.channel conn.poller
conn-Registered = record {
  list = (5, watches_input) ∷ [];
  accepted = unfold interest control in refl;
  mapped = refl;
  watched = refl;
  known = refl;
}

client-Steady : Steady client.connector
client-Steady = (λ e. cc, λ _. record { no_channel = refl; at_rest = refl; no_sock = λ _. refl })

disconnected_is_destroyed_if_idle_example :
    (r : TcpClient × Connection) × (disconnect conn client ≡ some r)
    × Fated 1 true (run (closes 1 ∷ []) (r.0))
disconnected_is_destroyed_if_idle_example =
    disconnected_is_destroyed_if_idle 1 conn client (closes 1 ∷ []) refl (omega arith) refl
      client-Steady conn-Registered
