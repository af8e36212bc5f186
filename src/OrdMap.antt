-- ===== src/OrdMap.antt =====
-- `std::map`: an association list in the order of its keys, and the orders of the keys that the
-- program uses.
use clear_moon.Prelude.{
  ℕ, Bool, true, false, ◌≡◌, refl, ◌↔◌, List, [], ◌∷◌, Option, none, some, arith, Bytes, ltb, ◌==◌,
  ==_iff, if◌then◌else◌,
}

-- Strings are equal when their bytes are.
abbrev pub equal : Bytes → Bytes → Bool
equal [] [] = true
equal [] (y ∷ ys) = false
equal (x ∷ xs) [] = false
equal (x ∷ xs) (y ∷ ys) = if x == y then equal xs ys else false

pub equal_iff : (a b : Bytes) → (equal a b ≡ true) ↔ (a ≡ b)
equal_iff [] [] = ground arith
equal_iff [] (y ∷ ys) = ground arith
equal_iff (x ∷ xs) [] = ground arith
equal_iff (x ∷ xs) (y ∷ ys) = ground (arith, equal_iff xs ys)

-- `std::string`'s `<`: byte by byte, a prefix first.
abbrev pub less : Bytes → Bytes → Bool
less [] [] = false
less [] (y ∷ ys) = true
less (x ∷ xs) [] = false
less (x ∷ xs) (y ∷ ys) = if x == y then less xs ys else ltb x y

-- The key type of a map: its equality and its `<`.
pub record Key (K : Type 0) : Type 0 where
  pub same : K → K → Bool
  pub same_iff : (a b : K) → (same a b ≡ true) ↔ (a ≡ b)
  pub before : K → K → Bool

instance abbrev pub bytes_key : Key Bytes
bytes_key = record { same = equal; same_iff = equal_iff; before = less }

instance abbrev pub number_key : Key ℕ
number_key = record { same = ◌==◌; same_iff = ==_iff; before = ltb }

abbrev pub OrdMap : Type 0 → Type 0 → Type 0
OrdMap K V = List (K × V)

module _ {K V : Type 0} ⦃key : Key K⦄ where
  abbrev pub find : K → OrdMap K V → Option V
  find k [] = none
  find k ((j, v) ∷ m) = if key.same j k then some v else find k m

  -- `m[k] = v`.
  abbrev pub assign : K → V → OrdMap K V → OrdMap K V
  assign k v [] = (k, v) ∷ []
  assign k v ((j, w) ∷ m) =
      if key.same j k
      then (j, v) ∷ m
      else if key.before k j
      then (k, v) ∷ (j, w) ∷ m
      else (j, w) ∷ assign k v m

  abbrev pub erase : K → OrdMap K V → OrdMap K V
  erase k [] = []
  erase k ((j, w) ∷ m) = if key.same j k then erase k m else (j, w) ∷ erase k m

  pub find-assign :
      (k j : K) (v : V) (m : OrdMap K V)
      → find j (assign k v m) ≡ (if key.same k j then some v else find j m)
  find-assign k j v [] = refl
  find-assign k j v ((i, w) ∷ m) =
      ground (arith, key.same_iff k j, key.same_iff i k, key.same_iff i j, find-assign k j v m)

  pub find-erase :
      (k j : K) (m : OrdMap K V) → find j (erase k m) ≡ (if key.same k j then none else find j m)
  find-erase k j [] = ground arith
  find-erase k j ((i, w) ∷ m) =
      ground (arith, key.same_iff k j, key.same_iff i k, key.same_iff i j, find-erase k j m)
