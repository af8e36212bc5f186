-- ===== src/Reactor/Channel.antt =====
-- net/Channel.h and Channel.cc: what a channel does through its loop, which passes the calls on to the
-- poller (net/EventLoop.cc, `updateChannel` and `removeChannel`).
pub mod Listed
pub mod Registered
use clear_moon.Prelude.{
  ℕ, Bool, true, false, not, ◌&&◌, ◌||◌, Option, none, some, ◌>>=◌, List, [], ◌∷◌, if◌then◌else◌,
}
use clear_moon.Reactor.Epoller.{
  Channel, Epoller, Events, no_events, Revents, no_revents, Index, deleted, new, present,
  update_channel, remove_channel,
}

abbrev pub create : ℕ → ℕ → Channel
create address fd = record {
  address = address;
  fd = fd;
  events = no_events;
  revents = no_revents;
  added = false;
  index = new;
}

unfoldable pub update : Channel → Epoller → Option (Channel × Epoller)
update c p = do (c', p') ← update_channel c p; some (record c' { added = true }, p')

unfoldable pub enable_reading : Channel → Epoller → Option (Channel × Epoller)
enable_reading c = update (record c { events = record c.events { input = true } })

unfoldable pub disable_reading : Channel → Epoller → Option (Channel × Epoller)
disable_reading c = update (record c { events = record c.events { input = false } })

unfoldable pub enable_writing : Channel → Epoller → Option (Channel × Epoller)
enable_writing c = update (record c { events = record c.events { output = true } })

unfoldable pub disable_writing : Channel → Epoller → Option (Channel × Epoller)
disable_writing c = update (record c { events = record c.events { output = false } })

unfoldable pub disable_all : Channel → Epoller → Option (Channel × Epoller)
disable_all c = update (record c { events = no_events })

-- Also what the destructor does.
unfoldable pub remove : Channel → Epoller → Option (Channel × Epoller)
remove c p = if not c.added then some (c, p) else elim c.index [
  | deleted ↦ some (record c { added = false }, p)
  | _ ↦ remove_channel (record c { added = false }) p
]

-- The callbacks run one behind the other on what they share, `S`; a callback that is not set is passed
-- over.
abbrev pub call_if : {S : Type 0} → Bool → Option (S → Option S) → S → Option S
call_if false f s = some s
call_if true none s = some s
call_if true (some f) s = f s

unfoldable pub handle_event :
    {S : Type 0}
    → Revents
    → Option (S → Option S)
    → Option (S → Option S)
    → Option (S → Option S)
    → S
    → Option S
handle_event r on_error on_read on_write s =
    call_if r.err on_error s
    >>= call_if (r.in_ || r.rdhup || r.pri) on_read
    >>= call_if (r.hup && not r.in_) on_error
    >>= call_if r.out on_write

pub data ChannelOp : Type 0 where
  reading_on reading_off writing_on writing_off all_off removal : ChannelOp

abbrev pub apply : ChannelOp → Channel → Epoller → Option (Channel × Epoller)
apply reading_on = enable_reading
apply reading_off = disable_reading
apply writing_on = enable_writing
apply writing_off = disable_writing
apply all_off = disable_all
apply removal = remove

-- Operations of one channel, in order.
unfoldable pub run : List ChannelOp → Channel → Epoller → Option (Channel × Epoller)
run [] c p = some (c, p)
run (o ∷ os) c p = do (c', p') ← apply o c p; run os c' p'
