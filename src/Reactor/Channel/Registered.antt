-- ===== src/Reactor/Channel/Registered.antt =====
-- A channel under any of its operations is registered as its fields say.
use clear_moon.Prelude.{
  inl, inr, ◌≡◌, ◌≢◌, refl, ◌∙◌, subst, true, false, not, List, [], ◌∷◌, some, arith, Bool-cases,
}
use clear_moon.OrdMap.{find, erase, number_key}
use clear_moon.Reactor.Epoller.{
  Channel, Epoller, Index, deleted, new, present, remove_channel, ctl_del,
}
use clear_moon.Reactor.Channel.{
  enable_reading, disable_reading, enable_writing, disable_writing, disable_all, remove, ChannelOp,
  apply, run, reading_on, reading_off, writing_on, writing_off, all_off, removal,
}
use clear_moon.Reactor.Channel.Listed.{knows_it_is, Registered, Frame, Good, del-Good, update-Good}

remove_off : (c : Channel) (p : Epoller) → c.added ≡ false → remove c p ≡ some (c, p)
unfolding remove
remove_off c p e = cc

remove_gone :
    (c : Channel) (p : Epoller)
    → c.added ≡ true
    → c.index ≡ deleted
    → remove c p ≡ some (record c { added = false }, p)
unfolding remove
remove_gone c p e i = cc

remove-Good :
    (i : Index) (c : Channel) (p : Epoller) → c.index ≡ i → Registered c p → Good c p (remove c p)
unfolding remove remove_channel
remove-Good present c p i r =
    let held : find c.fd p.channel_map ≡ some c.address = rw (r.mapped, i) refl in
    let seen : find c.fd r.list ≡ some c.events = rw (r.watched, i) refl in
    let known : c.added ≡ true = subst (λ x. knows_it_is x c.added ≡ true) i r.known in
    rw (known, i, held, i) (del-Good c.events false c p r.list r.accepted seen)
remove-Good new c p i r =
    let known : not c.added ≡ true = subst (λ x. knows_it_is x c.added ≡ true) i r.known in
    (c, p, remove_off c p (ground arith), r, record { map_kept = λ j n. refl }, refl, refl)
remove-Good deleted c p i r = elim (Bool-cases c.added) [
  | inl e ↦ (
    record c { added = false },
    p,
    remove_gone c p e i,
    record {
      list = r.list;
      accepted = r.accepted;
      mapped = rw i (rw (r.mapped, i) refl);
      watched = rw i (rw (r.watched, i) refl);
      known = rw i refl;
    },
    record { map_kept = λ j n. refl },
    refl,
    refl,
  )
  | inr e ↦ (c, p, remove_off c p e, r, record { map_kept = λ j n. refl }, refl, refl)
]

deleted_absent : deleted ≢ present
deleted_absent e = cc

removed :
    (i : Index) (c : Channel) (p : Epoller)
    → c.index ≡ i
    → Registered c p
    → (c' : Channel) × (p' : Epoller) × (remove c p ≡ some (c', p')) × (c'.index ≢ present)
unfolding remove remove_channel
removed present c p i r =
    let held : find c.fd p.channel_map ≡ some c.address = rw (r.mapped, i) refl in
    let known : c.added ≡ true = subst (λ x. knows_it_is x c.added ≡ true) i r.known in
    (
      record c { added = false; index = deleted },
      record { channel_map = erase c.fd p.channel_map; calls = ctl_del c.fd ∷ p.calls },
      rw (known, i, held, i) refl,
      deleted_absent,
    )
removed new c p i r =
    let known : not c.added ≡ true = subst (λ x. knows_it_is x c.added ≡ true) i r.known in
    (c, p, remove_off c p (ground arith), λ e. cc)
removed deleted c p i r = elim (Bool-cases c.added) [
  | inl e ↦ (record c { added = false }, p, remove_gone c p e i, λ f. cc)
  | inr e ↦ (c, p, remove_off c p e, λ f. cc)
]

-- `remove` takes a channel off the poller, if it is on it.
pub remove_unwatches :
    (c : Channel) (p : Epoller)
    → Registered c p
    → (c' : Channel) × (p' : Epoller) × (remove c p ≡ some (c', p')) × (c'.index ≢ present)
remove_unwatches c p r = removed c.index c p refl r

pub apply-Good :
    (o : ChannelOp) (c : Channel) (p : Epoller) → Registered c p → Good c p (apply o c p)
unfolding enable_reading disable_reading enable_writing disable_writing disable_all
apply-Good reading_on c p r = update-Good c.index _ c p refl r
apply-Good reading_off c p r = update-Good c.index _ c p refl r
apply-Good writing_on c p r = update-Good c.index _ c p refl r
apply-Good writing_off c p r = update-Good c.index _ c p refl r
apply-Good all_off c p r = update-Good c.index _ c p refl r
apply-Good removal c p r = remove-Good c.index c p refl r

-- However a channel turns its events on and off and is removed, no assert of the poller fails, the
-- kernel refuses no call of `epoll_ctl`, the map and the kernel's list hold the channel with its events
-- where it is present and nothing for its descriptor where it is not, and the entries of the map for
-- other descriptors stay.
pub run-Registered :
    (os : List ChannelOp) (c : Channel) (p : Epoller)
    → Registered c p
    → (c' : Channel) × (p' : Epoller) × (run os c p ≡ some (c', p'))
      × Registered c' p'
      × Frame c.fd p p'
      × (c'.fd ≡ c.fd)
unfolding run
run-Registered [] c p r = (c, p, refl, r, record { map_kept = λ j n. refl }, refl)
run-Registered (o ∷ os) c p r =
    let (m, q, e, s, f, d, a) = apply-Good o c p r in
    let (c', p', g, t, f', d') = run-Registered os m q s in
    (
      c',
      p',
      rw e g,
      t,
      record { map_kept = λ j n. f'.map_kept j (rw d n) ∙ f.map_kept j n },
      d' ∙ d,
    )
