-- ===== src/Endpoints/Connector/Attempt.antt =====
-- One attempt to connect at a time.
use clear_moon.Prelude.{ℕ, ◌≡◌, Bool, true, false, not, ◌&&◌, ◌||◌, Option}
use clear_moon.Reactor.Epoller.{Channel, Revents}
use clear_moon.Reactor.Channel
use clear_moon.Reactor.Channel.Listed.{Registered}
use clear_moon.Endpoints.Connector.{
  Connector, is_connecting, Connected, connect, stop, destroy, fire, lives_at, handle_event_at,
}
use clear_moon.Endpoints.Connector.Rests.{Steady, Rests}

-- What can happen to a connector: a call of `connect` or `stop`, what the poller reports of the channel
-- at an address, with what SO_ERROR is, a timer, and the end of the connector.
pub data Op : Type 0 where
  connects : ℕ → Connected → ℕ → Op
  stops destroys : Op
  reports : ℕ → Bool → Revents → Op
  fires : ℕ → Op

abbrev pub apply : Op → Connector → Option Connector
apply (connects fd result address) k = connect fd result address k
apply stops k = stop k
apply destroys k = destroy k
apply (reports address failed r) k = handle_event_at address failed r k
apply (fires i) k = fire i k

-- `connect` is called between attempts, with a descriptor that is new; the destructor comes between
-- attempts, too; and what is reported is reported of the channel, and is no error.
abbrev pub Allowed : Op → Connector → Type 0
Allowed (connects fd result address) k =
    (is_connecting k.state ≡ false) × Registered (Channel.create address fd) k.poller
Allowed destroys k = is_connecting k.state ≡ false
Allowed (reports address failed r) k =
    (lives_at address k.channel ≡ true) × ((r.err || (r.hup && not r.in_)) ≡ false)
Allowed _ k = Unit

abbrev pub made : Op → ℕ
made (connects fd result address) = 1
made _ = 0
