-- ===== src/Reactor/Epoller/Interest.antt =====
-- The kernel's side of `epoll_ctl`, for the statements: its interest list, and the calls it refuses.
use clear_moon.Prelude.{◌≡◌, refl, ℕ, List, [], ◌∷◌, Option, none, some, ◌>>=◌}
use clear_moon.OrdMap.{OrdMap, find, assign, erase, number_key}
use clear_moon.Reactor.Epoller.{Events, Ctl, ctl_add, ctl_mod, ctl_del}

-- EEXIST and ENOENT are `none`.
unfoldable pub control : Ctl → OrdMap ℕ Events → Option (OrdMap ℕ Events)
control (ctl_add fd ev) m = elim (find fd m) [ none ↦ some (assign fd ev m) | some _ ↦ none ]
control (ctl_mod fd ev) m = elim (find fd m) [ none ↦ none | some _ ↦ some (assign fd ev m) ]
control (ctl_del fd) m = elim (find fd m) [ none ↦ none | some _ ↦ some (erase fd m) ]

-- The list behind all calls, the last of which comes first.
unfoldable pub interest : List Ctl → Option (OrdMap ℕ Events)
interest [] = some []
interest (c ∷ cs) = interest cs >>= control c

pub interest-next :
    (c : Ctl) (cs : List Ctl) {l m : OrdMap ℕ Events}
    → interest cs ≡ some l
    → control c l ≡ some m
    → interest (c ∷ cs) ≡ some m
unfolding interest
interest-next c cs e f = rw e f

pub control-add :
    (fd : ℕ) (ev : Events) (m : OrdMap ℕ Events)
    → find fd m ≡ none
    → control (ctl_add fd ev) m ≡ some (assign fd ev m)
unfolding control
control-add fd ev m e = rw (e, control) refl

pub control-mod :
    (fd : ℕ) (ev old : Events) (m : OrdMap ℕ Events)
    → find fd m ≡ some old
    → control (ctl_mod fd ev) m ≡ some (assign fd ev m)
unfolding control
control-mod fd ev old m e = rw (e, control) refl

pub control-del :
    (fd : ℕ) (old : Events) (m : OrdMap ℕ Events)
    → find fd m ≡ some old
    → control (ctl_del fd) m ≡ some (erase fd m)
unfolding control
control-del fd old m e = rw (e, control) refl
