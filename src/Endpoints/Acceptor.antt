-- ===== src/Endpoints/Acceptor.antt =====
-- net/Acceptor.h and Acceptor.cc, in the loop's thread. What `accept` returns, call by call, is an
-- argument, and so is what is done with a connection that is accepted.
pub mod Accepts
use clear_moon.Prelude.{
  ℕ, ◌≡◌, refl, sym, ap, ◌∙◌, Bool, true, false, List, [], ◌∷◌, ◌++◌, Option, none, some, ◌>>=◌,
  if◌then◌else◌,
}
use clear_moon.Reactor.Epoller.{Channel, Epoller}
use clear_moon.Reactor.Channel.{enable_reading, disable_all, remove}
use clear_moon.Reactor.Channel

pub record Acceptor : Type 0 where
  pub accept_channel : Channel
  pub listening : Bool
  pub poller : Epoller

abbrev pub create : ℕ → ℕ → Epoller → Acceptor
create address fd poller = record {
  accept_channel = Channel.create address fd;
  listening = false;
  poller = poller;
}

abbrev pub with_channel : Bool → Acceptor → Channel × Epoller → Acceptor
with_channel b a r = record a { accept_channel = r.0; poller = r.1; listening = b }

unfoldable pub listen : Acceptor → Option Acceptor
listen a =
    if a.listening
    then some a
    else enable_reading a.accept_channel a.poller >>= λ r. some (with_channel true a r)

-- What `close` leaves to the loop, where the acceptor listens.
unfoldable pub close : Acceptor → Option Acceptor
close a =
    if a.listening
    then (disable_all a.accept_channel a.poller >>= λ r. some (with_channel false a r))
    else some a

-- The destructor: `disableAll`, and behind it that of the channel.
abbrev pub destroy : Acceptor → Option (Channel × Epoller)
destroy a = disable_all a.accept_channel a.poller >>= λ r. remove (r.0) (r.1)

-- A descriptor with the address of the peer, EAGAIN, or another error.
pub data Accepted (A : Type 0) : Type 0 where
  got : ℕ → A → Accepted A
  would_block failed : Accepted A

-- `handleRead`: the state of the server behind the callbacks, and the results that were not asked for;
-- `none` where it is still in its loop when the results are at their end.
unfoldable pub handle_read :
    {A S : Type 0} → (ℕ → A → S → Option S) → List (Accepted A) → S → Option (S × List (Accepted A))
handle_read on_connection [] s = none
handle_read on_connection (got fd peer ∷ rs) s =
    on_connection fd peer s >>= handle_read on_connection rs
handle_read on_connection (would_block ∷ rs) s = some (s, rs)
handle_read on_connection (failed ∷ rs) s = handle_read on_connection rs s
