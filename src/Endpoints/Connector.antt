-- ===== src/Endpoints/Connector.antt =====
-- net/Connector.h and Connector.cc, in the loop's thread, with what they use of the loop: its poller and
-- its timers, of which those are kept that would call `handleTimeout`. What the kernel and `new` give is
-- an argument; `none` is a failed assert or a use of an object that is not there.
pub mod Rests
pub mod Steady
pub mod Attempt
pub mod Failure
use clear_moon.Prelude.{
  ℕ, suc, Bool, true, false, not, ◌&&◌, ◌||◌, List, [], ◌∷◌, Option, none, some, ◌>>=◌, ◌>>◌,
  assert, ◌==◌, if◌then◌else◌,
}
use clear_moon.Reactor.Epoller.{Channel, Epoller, Revents, is_non_event}
use clear_moon.Reactor.Channel.{call_if, enable_writing, remove}
use clear_moon.Reactor.Channel

pub data States : Type 0 where
  disconnected connecting connected : States

-- `sock` is the descriptor of `sock_`; `handed` those that were given to `newConnCallback_`, and
-- `closed` those that were closed, the last one first.
pub record Connector : Type 0 where
  pub state : States
  pub channel : Option Channel
  pub sock : Option ℕ
  pub connect_timeout_id : Option ℕ
  pub has_callback : Bool
  pub poller : Epoller
  pub next_timer : ℕ
  pub armed : List ℕ
  pub handed : List ℕ
  pub closed : List ℕ

abbrev pub create : Bool → Epoller → ℕ → Connector
create has_callback poller next_timer = record {
  state = disconnected;
  channel = none;
  sock = none;
  connect_timeout_id = none;
  has_callback = has_callback;
  poller = poller;
  next_timer = next_timer;
  armed = [];
  handed = [];
  closed = [];
}

abbrev pub is_connecting : States → Bool
is_connecting connecting = true
is_connecting _ = false

abbrev pub close_old : Option ℕ → List ℕ → List ℕ
close_old none l = l
close_old (some fd) l = fd ∷ l

-- `sock_ = ...`: what it held is closed.
abbrev pub assign_sock : Option ℕ → Connector → Connector
assign_sock s k = record k { sock = s; closed = close_old k.sock k.closed }

-- A channel that `channel_` lets go: its destructor removes it.
abbrev pub let_go : Option Channel → Connector → Option Connector
let_go none k = some k
let_go (some c) k = remove c k.poller >>= λ r. some (record k { poller = r.1 })

-- `channel_->remove(); channel_.reset();`
abbrev pub drop_channel_of : Option Channel → Connector → Option Connector
drop_channel_of none k = none
drop_channel_of (some c) k = do
  (c', p) ← remove c k.poller
  let_go (some c') (record k { poller = p; channel = none })

unfoldable pub drop_channel : Connector → Option Connector
drop_channel k = drop_channel_of k.channel k

unfoldable pub drop_id : ℕ → List ℕ → List ℕ
drop_id i [] = []
drop_id i (j ∷ l) = if i == j then drop_id i l else j ∷ drop_id i l

abbrev pub cancel_of : Option ℕ → Connector → Connector
cancel_of none k = k
cancel_of (some i) k = record k { armed = drop_id i k.armed; connect_timeout_id = none }

-- The timer of the attempt, where there is one.
abbrev pub cancel_timeout : Connector → Connector
cancel_timeout k = cancel_of k.connect_timeout_id k

abbrev pub hand_over_to : Bool → Option ℕ → Connector → Connector
hand_over_to true (some fd) k = record k { sock = none; handed = fd ∷ k.handed }
hand_over_to _ _ k = k

-- `newConnCallback_`, where it is set, takes the socket.
abbrev pub hand_over : Connector → Connector
hand_over k = hand_over_to k.has_callback k.sock k

-- What `::connect` returns: 0, EINPROGRESS, or another error.
pub data Connected : Type 0 where
  at_once in_progress refused : Connected

-- `::socket` gives `fd`, and `new` the channel at `address`.
unfoldable pub connect : ℕ → Connected → ℕ → Connector → Option Connector
connect fd at_once address k =
    some (hand_over (record (assign_sock (some fd) k) { state = connected }))
connect fd in_progress address k = do
  let k = record (assign_sock (some fd) k) { state = connecting }
  k ← let_go k.channel k
  (c, p) ← enable_writing (Channel.create address fd) k.poller
  some (record k {
    channel = some c;
    poller = p;
    connect_timeout_id = some k.next_timer;
    next_timer = suc k.next_timer;
    armed = k.next_timer ∷ k.armed;
  })
connect fd refused address k = some (assign_sock none (assign_sock (some fd) k))

abbrev pub stop_connecting : Option Channel → Connector → Option Connector
stop_connecting none k = some (assign_sock none (record k { state = disconnected }))
stop_connecting (some c) k =
    drop_channel k >>= λ k. some (assign_sock none (record k { state = disconnected }))

-- What `stop` leaves to the loop.
unfoldable pub stop : Connector → Option Connector
stop k = do
  k ← if is_connecting k.state then stop_connecting k.channel k else some k
  some (cancel_timeout k)

-- The attempt is given up.
abbrev pub give_up : Connector → Option Connector
give_up k = drop_channel k >>= λ k. some (record (assign_sock none k) { state = disconnected })

-- `failed`: SO_ERROR is not 0.
unfoldable pub handle_write : Bool → Connector → Option Connector
handle_write failed k =
    if not (is_connecting k.state)
    then some k
    else if failed
    then give_up k
    else drop_channel (record (cancel_timeout k) { state = connected }) >>= λ k. some (hand_over k)

unfoldable pub handle_error : Connector → Option Connector
handle_error k =
    if is_connecting k.state then (do k ← give_up k; some (cancel_timeout k)) else some k

unfoldable pub handle_timeout : Connector → Option Connector
handle_timeout k =
    if not (is_connecting k.state)
    then some k
    else give_up k >>= λ k. some (record k { connect_timeout_id = none })

-- The destructor; its assert fails while the channel asks for events.
abbrev pub destroy_of : Option Channel → Connector → Option Connector
destroy_of none k = some (assign_sock none k)
destroy_of (some c) k = assert (is_non_event c) >> let_go (some c) (assign_sock none k)

abbrev pub destroy : Connector → Option Connector
destroy k = destroy_of k.channel k

-- The loop's timers run the timer `i`.
abbrev pub fire : ℕ → Connector → Option Connector
fire i k = handle_timeout (record k { armed = drop_id i k.armed })

abbrev pub lives_at : ℕ → Option Channel → Bool
lives_at address none = false
lives_at address (some c) = address == c.address

-- `Channel::handleEvent` reads its fields again behind each callback: the channel has to be there still.
abbrev pub reads : ℕ → (Connector → Option Connector) → Connector → Option Connector
reads address f k = assert (lives_at address k.channel) >> f k

unfoldable pub handle_event_at : ℕ → Bool → Revents → Connector → Option Connector
handle_event_at address failed r k =
    call_if r.err (some handle_error) k
    >>= reads address (call_if (r.in_ || r.rdhup || r.pri) none)
    >>= reads address (call_if (r.hup && not r.in_) (some handle_error))
    >>= reads address (call_if r.out (some (handle_write failed)))
