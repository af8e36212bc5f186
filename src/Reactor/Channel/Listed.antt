-- ===== src/Reactor/Channel/Listed.antt =====
-- What is registered for a channel, and what the adding, changing and taking off of its events makes of it.
use clear_moon.Prelude.{
  inl, inr, ℕ, ◌≡◌, ◌≢◌, refl, Bool, true, not, ◌&&◌, List, ◌∷◌, Option, none, some, arith,
  Bool-cases, ◌==◌, ==_iff,
}
use clear_moon.OrdMap.{OrdMap, find, assign, erase, number_key, find-assign, find-erase}
use clear_moon.Reactor.Epoller.{
  Channel, Epoller, Events, Index, deleted, new, present, update_channel, remove_channel, ctl_add,
  ctl_mod, ctl_del,
}
use clear_moon.Reactor.Epoller.Interest.{
  interest, interest-next, control-add, control-mod, control-del,
}
use clear_moon.Reactor.Channel.{update}

-- What the map and the kernel hold for the descriptor of a channel: its pointer and its events, or
-- nothing.
abbrev pub address_held : Index → Channel → Option ℕ
address_held present c = some c.address
address_held _ c = none

abbrev pub events_held : Index → Channel → Option Events
events_held present c = some c.events
events_held _ c = none

abbrev pub knows_it_is : Index → Bool → Bool
knows_it_is present added = added
knows_it_is new added = not added
knows_it_is _ added = true

pub record Registered (c : Channel) (p : Epoller) : Type 0 where
  pub list : OrdMap ℕ Events
  pub accepted : interest p.calls ≡ some list
  pub mapped : find c.fd p.channel_map ≡ address_held c.index c
  pub watched : find c.fd list ≡ events_held c.index c
  pub known : knows_it_is c.index c.added ≡ true

-- Nothing else is touched.
pub record Frame (fd : ℕ) (p p' : Epoller) : Type 0 where
  pub map_kept : (j : ℕ) → fd ≢ j → find j p'.channel_map ≡ find j p.channel_map

abbrev pub Good : Channel → Epoller → Option (Channel × Epoller) → Type 0
Good c p o =
    (c' : Channel) × (p' : Epoller) × (o ≡ some (c', p'))
    × Registered c' p'
    × Frame c.fd p p'
    × (c'.fd ≡ c.fd)
    × (c'.address ≡ c.address)

find-assign_self : {V : Type 0} (k : ℕ) (v : V) (m : OrdMap ℕ V) → find k (assign k v m) ≡ some v
find-assign_self k v m = ground (arith, find-assign k k v m, ==_iff k k)

find-erase_self : {V : Type 0} (k : ℕ) (m : OrdMap ℕ V) → find k (erase k m) ≡ none
find-erase_self k m = ground (arith, find-erase k k m, ==_iff k k)

Frame-assign :
    (k a : ℕ) (p : Epoller) (cs : List _)
    → Frame k p (record { channel_map = assign k a p.channel_map; calls = cs })
Frame-assign k a p cs = record {
  map_kept = λ j n. ground (arith, find-assign k j a p.channel_map, ==_iff k j);
}

Frame-erase :
    (k : ℕ) (p : Epoller) (cs : List _)
    → Frame k p (record { channel_map = erase k p.channel_map; calls = cs })
Frame-erase k p cs = record {
  map_kept = λ j n. ground (arith, find-erase k j p.channel_map, ==_iff k j);
}

-- A descriptor that nothing is held for is added.
add-Good :
    (ev : Events) (c : Channel) (p : Epoller) (l : OrdMap ℕ Events)
    → interest p.calls ≡ some l
    → find c.fd l ≡ none
    → Good c p (
        some (
          record c { events = ev; index = present; added = true },
          record {
            channel_map = assign c.fd c.address p.channel_map;
            calls = ctl_add c.fd ev ∷ p.calls;
          },
        ))
add-Good ev c p l e free = (
  _,
  _,
  refl,
  record {
    list = assign c.fd ev l;
    accepted = interest-next _ p.calls e (control-add c.fd ev l free);
    mapped = find-assign_self c.fd c.address p.channel_map;
    watched = find-assign_self c.fd ev l;
    known = refl;
  },
  Frame-assign c.fd c.address p _,
  refl,
  refl,
)

-- A descriptor that is held is given up.
pub del-Good :
    (ev : Events) (added : Bool) (c : Channel) (p : Epoller) (l : OrdMap ℕ Events)
    → interest p.calls ≡ some l
    → find c.fd l ≡ some c.events
    → Good c p (
        some (
          record c { events = ev; index = deleted; added = added },
          record { channel_map = erase c.fd p.channel_map; calls = ctl_del c.fd ∷ p.calls },
        ))
del-Good ev added c p l e held = (
  _,
  _,
  refl,
  record {
    list = erase c.fd l;
    accepted = interest-next _ p.calls e (control-del c.fd c.events l held);
    mapped = find-erase_self c.fd p.channel_map;
    watched = find-erase_self c.fd l;
    known = refl;
  },
  Frame-erase c.fd p _,
  refl,
  refl,
)

-- A descriptor that is held gets other events.
mod-Good :
    (ev : Events) (c : Channel) (p : Epoller) (l : OrdMap ℕ Events)
    → interest p.calls ≡ some l
    → c.index ≡ present
    → find c.fd p.channel_map ≡ some c.address
    → find c.fd l ≡ some c.events
    → Good c p (
        some
          (record c { events = ev; added = true }, record p { calls = ctl_mod c.fd ev ∷ p.calls }))
mod-Good ev c p l e i mapped held = (
  _,
  _,
  refl,
  record {
    list = assign c.fd ev l;
    accepted = interest-next _ p.calls e (control-mod c.fd ev c.events l held);
    mapped = rw i mapped;
    watched = rw i (find-assign_self c.fd ev l);
    known = rw i refl;
  },
  record { map_kept = λ j n. refl },
  refl,
  refl,
)

==_self : (n : ℕ) → (n == n) ≡ true
==_self n = ground arith

pub update-Good :
    (i : Index) (ev : Events) (c : Channel) (p : Epoller)
    → c.index ≡ i
    → Registered c p
    → Good c p (update (record c { events = ev }) p)
unfolding update update_channel remove_channel
update-Good new ev c p i r =
    let free : find c.fd p.channel_map ≡ none = rw (r.mapped, i) refl in
    rw (i, free) (add-Good ev c p r.list r.accepted (rw (r.watched, i) refl))
update-Good deleted ev c p i r =
    let free : find c.fd p.channel_map ≡ none = rw (r.mapped, i) refl in
    rw (i, free) (add-Good ev c p r.list r.accepted (rw (r.watched, i) refl))
update-Good present ev c p i r =
    let held : find c.fd p.channel_map ≡ some c.address = rw (r.mapped, i) refl in
    let seen : find c.fd r.list ≡ some c.events = rw (r.watched, i) refl in
    elim (Bool-cases (not ev.input && not ev.output)) [
      | inl e ↦ rw (i, held, ==_self c.address, e, i) (del-Good ev true c p r.list r.accepted seen)
      | inr e ↦ rw (i, held, ==_self c.address, e) (mod-Good ev c p r.list r.accepted i held seen)
    ]
