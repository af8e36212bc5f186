-- ===== src/Endpoints/TcpClient.antt =====
-- net/TcpClient.h and TcpClient.cc, in the loop's thread, over the connector. The client knows a connection
-- by the number in its name; what is called on connections is noted, the last one first. The counter of names is one
-- for all clients; here it is part of the client. `newConnection`, which the connector calls with a socket,
-- is an operation of its own.
pub mod Lost
use clear_moon.Prelude.{
  ℕ, suc, Bool, true, false, not, ◌&&◌, List, [], ◌∷◌, Option, none, some, ◌>>=◌, ◌==◌,
  if◌then◌else◌,
}
use clear_moon.Reactor.Epoller.{Epoller}
use clear_moon.Tcp.Connection.{Connection, is_disconnected, shutdown}
use clear_moon.Endpoints.Connector
use clear_moon.Endpoints.Connector.{Connector, Connected}

-- Calls of `connectEstablelished`, `shutdown`, `forceClose` and `connectDestroyed`.
pub data ConnCall : Type 0 where
  established shut force_closed destroyed : ℕ → ConnCall

pub record TcpClient : Type 0 where
  pub connector : Connector
  pub connection : Option ℕ
  pub next_id : ℕ
  pub calls : List ConnCall

abbrev pub create : Epoller → ℕ → TcpClient
create poller next_timer = record {
  connector = Connector.create true poller next_timer;
  connection = none;
  next_id = 1;
  calls = [];
}

-- The connector starts an attempt.
unfoldable pub connect : ℕ → Connected → ℕ → TcpClient → Option TcpClient
connect fd result address s =
    Connector.connect fd result address s.connector >>= λ k. some (record s { connector = k })

unfoldable pub new_connection : TcpClient → TcpClient
new_connection s = record s {
  connection = some s.next_id;
  next_id = suc s.next_id;
  calls = established s.next_id ∷ s.calls;
}

abbrev pub is_it : ℕ → Option ℕ → Bool
is_it c none = false
is_it c (some d) = d == c

-- The close callback of a connection.
unfoldable pub remove_connection : ℕ → TcpClient → TcpClient
remove_connection c s =
    if is_it c s.connection
    then record s { connection = none; calls = destroyed c ∷ s.calls }
    else s

-- Whether the connection was closed, so that its close callback was called.
abbrev pub closes_in : Connection → Connection → Bool
closes_in conn conn' = not (is_disconnected conn.state) && is_disconnected conn'.state

-- `connection_.reset()`.
abbrev pub let_go : TcpClient → TcpClient
let_go s = record s { connection = none }

-- `shutdown` runs at once, with the close callback in the middle where it comes to that.
abbrev pub shut_of : Option ℕ → Connection → TcpClient → Option (TcpClient × Connection)
shut_of none conn s = some (s, conn)
shut_of (some c) conn s = do
  conn' ← shutdown true conn
  let s = record s { calls = shut c ∷ s.calls }
  some (let_go (if closes_in conn conn' then remove_connection c s else s), conn')

-- `conn` is the state of the connection that the client holds, if it holds one.
unfoldable pub disconnect : Connection → TcpClient → Option (TcpClient × Connection)
disconnect conn s = do
  k ← Connector.stop s.connector
  shut_of s.connection conn (record s { connector = k })

-- The destructor, up to its members.
abbrev pub close_down_of : Option ℕ → TcpClient → TcpClient
close_down_of none s = s
close_down_of (some c) s = record s { calls = force_closed c ∷ s.calls }

abbrev pub close_down : TcpClient → TcpClient
close_down s = close_down_of s.connection s

pub data ClientOp : Type 0 where
  connects : ℕ → Connected → ℕ → ClientOp
  disconnects : Connection → ClientOp
  opens : ClientOp
  closes : ℕ → ClientOp

abbrev pub apply : ClientOp → TcpClient → Option TcpClient
apply (connects fd result address) s = connect fd result address s
apply (disconnects conn) s = disconnect conn s >>= λ r. some (r.0)
apply opens s = some (new_connection s)
apply (closes c) s = some (remove_connection c s)

unfoldable pub run : List ClientOp → TcpClient → Option TcpClient
run [] s = some s
run (o ∷ os) s = apply o s >>= run os
