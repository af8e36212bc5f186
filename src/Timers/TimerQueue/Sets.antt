-- ===== src/Timers/TimerQueue/Sets.antt =====
-- The sets of timers, as lists.
use clear_moon.Prelude.{
  ℕ, ◌≡◌, ◌≢◌, sym, subst, inl, inr, Bool, true, false, ◌||◌, List, [], ◌∷◌, ◌++◌, arith,
  Bool-cases, ==_iff, if◌then◌else◌,
}
use clear_moon.OrdMap.{number_key}
use clear_moon.Timers.TimerQueue.{
  Entry, ActiveTimer, comes_before, insert, remove, has_active, same_active, put_active,
  drop_active,
}
use clear_moon.Timers.TimerQueue.Order.{All, Leads, IsOrdered}

-- No entry of these has this address.
abbrev pub Apart : ℕ → List Entry → Type 0
Apart a l = All (λ e. a ≢ e.timer) l

-- No two entries have the same address.
abbrev pub Distinct : List Entry → Type 0
Distinct [] = Unit
Distinct (e ∷ l) = Apart e.timer l × Distinct l

pub All-turn :
    {A : Type 0} (P Q : A → Type 0) (l : List A) → ((x : A) → P x → Q x) → All P l → All Q l
All-turn P Q [] f h = tt
All-turn P Q (x ∷ l) f (h, hs) = (f x h, All-turn P Q l f hs)

pub All-pair :
    {A : Type 0} (P Q : A → Type 0) (l : List A) → All P l → All Q l → All (λ x. P x × Q x) l
All-pair P Q [] h k = tt
All-pair P Q (x ∷ l) (h, hs) (k, ks) = ((h, k), All-pair P Q l hs ks)

choose-All :
    {A : Type 0} (b : Bool) (P : A → Type 0) (k l : List A)
    → All P k
    → All P l
    → All P (if b then k else l)
choose-All true P k l f g = f
choose-All false P k l f g = g

pub All-insert :
    (P : Entry → Type 0) (e : Entry) (l : List Entry) → P e → All P l → All P (insert e l)
unfolding insert
All-insert P e [] p h = (p, tt)
All-insert P e (d ∷ l) p (h, hs) =
    choose-All (comes_before e d) P (e ∷ d ∷ l) (if comes_before d e then d ∷ insert e l else d ∷ l)
      (p, (h, hs))
      (choose-All (comes_before d e) P (d ∷ insert e l) (d ∷ l) (h, All-insert P e l p hs) (h, hs))

-- Which entry an entry is not.
abbrev pub Differs : Entry → Entry → Type 0
Differs e d = comes_before e d || comes_before d e ≡ true

pub All-remove :
    (P : Entry → Type 0) (e : Entry) (l : List Entry)
    → All P l
    → All (λ d. P d × Differs e d) (remove e l)
unfolding remove
All-remove P e [] h = tt
All-remove P e (d ∷ l) (h, hs) = elim (Bool-cases (comes_before e d || comes_before d e)) [
  | inl f ↦ rw f ((h, f), All-remove P e l hs)
  | inr f ↦ rw f (All-remove P e l hs)
]

pub remove-All : (P : Entry → Type 0) (e : Entry) (l : List Entry) → All P l → All P (remove e l)
remove-All P e l h =
    All-turn (λ d. P d × Differs e d) P (remove e l) (λ d p. p.0) (All-remove P e l h)

pub remove-Distinct : (e : Entry) (l : List Entry) → Distinct l → Distinct (remove e l)
unfolding remove
remove-Distinct e [] h = tt
remove-Distinct e (d ∷ l) (h, hs) = elim (Bool-cases (comes_before e d || comes_before d e)) [
  | inl f ↦ rw f (remove-All (λ x. d.timer ≢ x.timer) e l h, remove-Distinct e l hs)
  | inr f ↦ rw f (remove-Distinct e l hs)
]

remove-Leads : (a e : Entry) (l : List Entry) → Leads a l → Leads a (remove e l)
unfolding remove
remove-Leads a e [] h = tt
remove-Leads a e (d ∷ l) (h, hs) = elim (Bool-cases (comes_before e d || comes_before d e)) [
  | inl f ↦ rw f (h, remove-Leads a e l hs)
  | inr f ↦ rw f (remove-Leads a e l hs)
]

pub remove-IsOrdered : (e : Entry) (l : List Entry) → IsOrdered l → IsOrdered (remove e l)
unfolding remove
remove-IsOrdered e [] h = tt
remove-IsOrdered e (d ∷ l) (h, hs) = elim (Bool-cases (comes_before e d || comes_before d e)) [
  | inl f ↦ rw f (remove-Leads d e l h, remove-IsOrdered e l hs)
  | inr f ↦ rw f (remove-IsOrdered e l hs)
]

apart_turn : (a b : ℕ) → a ≢ b → b ≢ a
apart_turn a b n e = n (sym e)

pub insert-Distinct :
    (e : Entry) (l : List Entry) → Apart e.timer l → Distinct l → Distinct (insert e l)
unfolding insert
insert-Distinct e [] a h = (tt, tt)
insert-Distinct e (d ∷ l) (a, b) (h, hs) = elim (Bool-cases (comes_before e d)) [
  | inl f ↦ rw f ((a, b), (h, hs))
  | inr f ↦ elim (Bool-cases (comes_before d e)) [
    | inl g ↦
        rw (f, g)
          (
            All-insert (λ x. d.timer ≢ x.timer) e l (apart_turn e.timer d.timer a) h,
            insert-Distinct e l b hs,
          )
    | inr g ↦ rw (f, g) (h, hs)
  ]
]

-- Two lists of entries with no address in both.
abbrev pub Parted : List Entry → List Entry → Type 0
Parted k l = All (λ e. Apart e.timer k) l

pub Distinct-parts : (k l : List Entry) → Distinct (k ++ l) → Distinct k × Distinct l × Parted k l
Distinct-parts [] l h = (tt, h, every l)
  where
    every : (l : List Entry) → Parted [] l
    every [] = tt
    every (e ∷ l) = (tt, every l)
Distinct-parts (e ∷ k) l (h, hs) =
    let (a, b, c) = Distinct-parts k l hs in
    let (f, g) = parts k h in
    (
      (f, a),
      b,
      All-turn (λ d. (e.timer ≢ d.timer) × Apart d.timer k) (λ d. Apart d.timer (e ∷ k)) l
          (λ d p. (apart_turn e.timer d.timer p.0, p.1))
          (All-pair (λ d. e.timer ≢ d.timer) (λ d. Apart d.timer k) l g c),
    )
  where
    parts : (k : List Entry) → Apart e.timer (k ++ l) → Apart e.timer k × Apart e.timer l
    parts [] h = (tt, h)
    parts (d ∷ k) (h, hs) = let (a, b) = parts k hs in ((h, a), b)

pub All-drop_active :
    (P : ActiveTimer → Type 0) (x : ActiveTimer) (l : List ActiveTimer)
    → All P l
    → All (λ y. P y × (same_active x y ≡ false)) (drop_active x l)
unfolding drop_active
All-drop_active P x [] h = tt
All-drop_active P x (y ∷ l) (h, hs) = elim (Bool-cases (same_active x y)) [
  | inl f ↦ rw f (All-drop_active P x l hs)
  | inr f ↦ rw f ((h, f), All-drop_active P x l hs)
]

pub All-put_active :
    (P : ActiveTimer → Type 0) (x : ActiveTimer) (l : List ActiveTimer)
    → P x
    → All P l
    → All P (put_active x l)
All-put_active P x l p h = choose-All (has_active x l) P l (x ∷ l) h (p, h)

same_parts :
    (x y : ActiveTimer) → same_active x y ≡ true → (x.number ≡ y.number) × (x.address ≡ y.address)
same_parts x y e = ground (arith, ==_iff x.number y.number, ==_iff x.address y.address)

-- What holds of all that are active holds of one that is.
pub has_active-All :
    (P : ℕ → ℕ → Type 0) (x : ActiveTimer) (l : List ActiveTimer)
    → has_active x l ≡ true
    → All (λ y. P y.number y.address) l
    → P x.number x.address
unfolding has_active
has_active-All P x [] e h = absurd cc
has_active-All P x (y ∷ l) e (h, hs) = elim (Bool-cases (same_active x y)) [
  | inl f ↦
      let (n, a) = same_parts x y f in
      subst (λ i. P i x.address) (sym n) (subst (λ i. P y.number i) (sym a) h)
  | inr f ↦ has_active-All P x l (ground (arith, e, f)) hs
]
