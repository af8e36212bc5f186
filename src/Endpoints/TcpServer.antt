-- ===== src/Endpoints/TcpServer.antt =====
-- net/TcpServer.h and TcpServer.cc, in the base loop's thread. A connection is its number and its loop,
-- `L`; what is left to the loops of connections is noted, the last one first. The connections are in a
-- table by name, here in the order of the names.
pub mod Names
pub mod Held
use clear_moon.Prelude.{
  ℕ, zero, suc, ◌+◌, ◌-◌, ◌^◌, Bool, true, false, not, List, [], ◌∷◌, ◌++◌, map, Option, none, some,
  ◌>>=◌, ◌>>◌, assert, Bytes, ltb, if◌then◌else◌,
}
use clear_moon.OrdMap.{OrdMap, find, assign, erase, bytes_key}
use clear_moon.StdString.{decimal}
use clear_moon.LoopPool.{LoopPool, get_next_loop}
use clear_moon.LoopPool
use clear_moon.Endpoints.Acceptor.{Acceptor, listen, close}

pub record Conn (L : Type 0) : Type 0 where
  pub number : ℕ
  pub io_loop : L

-- Calls of `connectEstablelished`, `connectDestroyed` and `forceClose`.
pub record TcpServer (L : Type 0) : Type 0 where
  pub event_thread_pool : LoopPool L
  pub acceptor : Acceptor
  pub started : Bool
  pub next_conn_id : ℕ
  pub connections : OrdMap Bytes (Conn L)
  pub established : List (Conn L)
  pub destroyed : List (Conn L)
  pub force_closed : List (Conn L)

-- "ClearMoon#" and the number.
abbrev pub thread_name : Bytes
thread_name = 67 ∷ 108 ∷ 101 ∷ 97 ∷ 114 ∷ 77 ∷ 111 ∷ 111 ∷ 110 ∷ []

abbrev pub name_of : ℕ → Bytes
name_of n = thread_name ++ (35 ∷ decimal n)

-- An `int` that is counted past its end is not defined.
abbrev pub int_end : ℕ
int_end = 2 ^ 31 - 1

-- A connection that is accepted, and what `removeConnection` leaves to the base loop.
pub data ServerOp (L : Type 0) : Type 0 where
  arrives : ServerOp L
  leaves : Conn L → ServerOp L

module _ {L : Type 0} where
  abbrev pub create : LoopPool L → Acceptor → TcpServer L
  create pool acceptor = record {
    event_thread_pool = pool;
    acceptor = acceptor;
    started = false;
    next_conn_id = 1;
    connections = [];
    established = [];
    destroyed = [];
    force_closed = [];
  }

  -- `start_thread` gives the loop of a new thread.
  unfoldable pub start : (ℕ → L) → TcpServer L → Option (TcpServer L)
  start start_thread s =
      if s.started
      then some s
      else listen s.acceptor >>= λ a. some (record s {
        event_thread_pool = LoopPool.start start_thread s.event_thread_pool;
        acceptor = a;
        started = true;
      })

  abbrev pub values : OrdMap Bytes (Conn L) → List (Conn L)
  values [] = []
  values ((n, c) ∷ m) = c ∷ values m

  -- What is left to the base loop is done at once.
  unfoldable pub stop : TcpServer L → Option (TcpServer L)
  stop s =
      if not s.started
      then some s
      else close s.acceptor >>= λ a. some (record s {
        acceptor = a;
        started = false;
        force_closed = values s.connections ++ s.force_closed;
      })

  unfoldable pub new_connection : TcpServer L → Option (TcpServer L)
  new_connection s = do
    (l, pool) ← get_next_loop s.event_thread_pool
    assert (ltb s.next_conn_id int_end)
    let c : Conn L = record { number = s.next_conn_id; io_loop = l }
    some (record s {
      event_thread_pool = pool;
      next_conn_id = suc s.next_conn_id;
      connections = assign (name_of s.next_conn_id) c s.connections;
      established = c ∷ s.established;
    })

  abbrev pub removed_where : Option (Conn L) → Conn L → TcpServer L → TcpServer L
  removed_where none c s = s
  removed_where (some _) c s = record s {
    connections = erase (name_of c.number) s.connections;
    destroyed = c ∷ s.destroyed;
  }

  unfoldable pub remove_connection_in_loop : Conn L → TcpServer L → TcpServer L
  remove_connection_in_loop c s = removed_where (find (name_of c.number) s.connections) c s

  abbrev pub apply : ServerOp L → TcpServer L → Option (TcpServer L)
  apply arrives s = new_connection s
  apply (leaves c) s = some (remove_connection_in_loop c s)

  unfoldable pub serve : List (ServerOp L) → TcpServer L → Option (TcpServer L)
  serve [] s = some s
  serve (o ∷ os) s = apply o s >>= serve os
