-- ===== src/Reactor/Epoller.antt =====
-- net/Poller/Epoller.h, Epoller.cc, Poller.h and Poller.cc, over the fields of a net/Channel.h that it
-- reads and sets. All of it runs in the loop's thread, so the asserts on the thread hold. Each call of
-- `epoll_ctl` is recorded, the last one first: the code does not look at what it returns.
pub mod Interest
use clear_moon.Prelude.{
  ℕ, Bool, true, false, not, ◌&&◌, List, [], ◌∷◌, ◌++◌, map, Option, none, some, ◌>>=◌, ◌>>◌,
  assert, ◌==◌, if◌then◌else◌,
}
use clear_moon.OrdMap.{OrdMap, find, assign, erase, number_key}

-- The events a channel asks for: EPOLLIN and EPOLLOUT.
pub record Events : Type 0 where
  pub input : Bool
  pub output : Bool

abbrev pub no_events : Events
no_events = record { input = false; output = false }

-- The events that `epoll_wait` reports.
pub record Revents : Type 0 where
  pub err : Bool
  pub hup : Bool
  pub in_ : Bool
  pub pri : Bool
  pub rdhup : Bool
  pub out : Bool

abbrev pub no_revents : Revents
no_revents = record {
  err = false;
  hup = false;
  in_ = false;
  pri = false;
  rdhup = false;
  out = false;
}

pub data Index : Type 0 where
  deleted new present : Index

-- `address` is the pointer to the channel.
pub record Channel : Type 0 where
  pub address : ℕ
  pub fd : ℕ
  pub events : Events
  pub revents : Revents
  pub added : Bool
  pub index : Index

pub data Ctl : Type 0 where
  ctl_add : ℕ → Events → Ctl
  ctl_mod : ℕ → Events → Ctl
  ctl_del : ℕ → Ctl

pub record Epoller : Type 0 where
  pub channel_map : OrdMap ℕ ℕ
  pub calls : List Ctl

abbrev pub is_non_event : Channel → Bool
is_non_event c = not c.events.input && not c.events.output

abbrev pub holds : ℕ → Option ℕ → Bool
holds address none = false
holds address (some a) = a == address

abbrev pub is_free : ℕ → Option ℕ → Bool
is_free address none = true
is_free address (some a) = a == address

abbrev pub has_channel : Channel → Epoller → Bool
has_channel c p = holds c.address (find c.fd p.channel_map)

-- EPOLL_CTL_ADD, of a new channel or of a deleted one.
abbrev pub add_channel : Channel → Epoller → Channel × Epoller
add_channel c p = (
  record c { index = present },
  record {
    channel_map = assign c.fd c.address p.channel_map;
    calls = ctl_add c.fd c.events ∷ p.calls;
  },
)

abbrev pub erased_one : Option ℕ → Bool
erased_one none = false
erased_one (some a) = true

abbrev pub is_present : Index → Bool
is_present present = true
is_present _ = false

unfoldable pub remove_channel : Channel → Epoller → Option (Channel × Epoller)
remove_channel c p = do
  assert (is_present c.index)
  assert (erased_one (find c.fd p.channel_map))
  some (
    record c { index = deleted },
    record { channel_map = erase c.fd p.channel_map; calls = ctl_del c.fd ∷ p.calls },
  )

unfoldable pub update_channel : Channel → Epoller → Option (Channel × Epoller)
update_channel c p = elim c.index [
  | new ↦ assert (not (has_channel c p)) >> some (add_channel c p)
  | deleted ↦ assert (is_free c.address (find c.fd p.channel_map)) >> some (add_channel c p)
  | present ↦
      assert (has_channel c p)
      >> (if is_non_event c
          then remove_channel c p
          else some (c, record p { calls = ctl_mod c.fd c.events ∷ p.calls }))
]

-- `fillActiveChannels`: what `epoll_wait` reported, put into the channels, in its order.
abbrev pub fill_active : List (Channel × Revents) → List Channel
fill_active = map λ (reported : Channel × Revents). record (reported.0) { revents = reported.1 }
