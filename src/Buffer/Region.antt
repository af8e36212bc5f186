-- ===== src/Buffer/Region.antt =====
-- Reads and writes of a range of a vector.
use clear_moon.Prelude.{
  ℕ, ◌+◌, ◌-◌, ◌≤◌, ◌≡◌, refl, ap, ◌∙◌, ◌++◌, some, arith, Bytes, length, take, drop, length-append,
  length-take, length-drop, take-append_of_le, drop-append_of_le, take-append_past,
  drop-append_past, drop-take, take-add, take-take, take-length, drop-drop,
}
use clear_moon.Buffer.{copy_to}

-- The bytes `[from, to)` of a vector.
abbrev pub range : ℕ → ℕ → Bytes → Bytes
range from to v = take (to - from) (drop from v)

pub length-range : (from to : ℕ) (v : Bytes) → to ≤ length v → length (range from to v) ≡ to - from
length-range from to v h = omega (arith, length-take (to - from) (drop from v), length-drop from v)

-- A copy inside the vector succeeds, and its result is what is written out here.
abbrev pub copied : ℕ → Bytes → Bytes → Bytes
copied at src dst = take at dst ++ (src ++ drop (at + length src) dst)

pub copy_to-eq-copied :
    (at : ℕ) (src dst : Bytes)
    → at + length src ≤ length dst
    → copy_to at src dst ≡ some (copied at src dst)
unfolding copy_to
copy_to-eq-copied at src dst h = ground arith

pub length-copied :
    (at : ℕ) (src dst : Bytes)
    → at + length src ≤ length dst
    → length (copied at src dst) ≡ length dst
length-copied at src dst h = omega (
  arith,
  length-append (take at dst) (src ++ drop (at + length src) dst),
  length-append src (drop (at + length src) dst),
  length-take at dst,
  length-drop (at + length src) dst,
)

-- The range up to the end of what was copied: what stood before it, then the copy.
pub range-copied :
    (from at to : ℕ) (src dst : Bytes)
    → from ≤ at
    → to ≡ at + length src
    → to ≤ length dst
    → range from to (copied at src dst) ≡ range from at dst ++ src
range-copied from at to src dst h e k =
    ap (take (to - from))
      (drop-append_of_le from (take at dst) _ (omega (arith, length-take at dst)))
    ∙ ap (λ t. take (to - from) (t ++ (src ++ drop (at + length src) dst)))
        (drop-take from at (at - from) dst (omega arith))
    ∙ take-append_past (to - from) (length src) (range from at dst) _
        (omega (arith, length-range from at dst))
    ∙ ap (λ t. range from at dst ++ t)
        (take-append_of_le (length src) src _ (omega arith) ∙ take-length src)

-- A range before the copy is as it was.
pub range-copied_before :
    (from at to : ℕ) (src dst : Bytes)
    → to ≤ at
    → from ≤ to
    → at ≤ length dst
    → range from to (copied at src dst) ≡ range from to dst
range-copied_before from at to src dst h f k =
    ap (take (to - from))
      (drop-append_of_le from (take at dst) _ (omega (arith, length-take at dst)))
    ∙ take-append_of_le (to - from) (drop from (take at dst)) _
        (omega (arith, length-drop from (take at dst), length-take at dst))
    ∙ ap (take (to - from)) (drop-take from at (at - from) dst (omega arith))
    ∙ take-take (to - from) (at - from) (drop from dst) (omega arith)

-- Nor does a longer tail change it.
pub range-append :
    (from to : ℕ) (v w : Bytes)
    → from ≤ to
    → to ≤ length v
    → range from to (v ++ w) ≡ range from to v
range-append from to v w f h =
    ap (take (to - from)) (drop-append_of_le from v w (omega arith))
    ∙ take-append_of_le (to - from) (drop from v) w (omega (arith, length-drop from v))

-- A range falls into two at any point inside.
pub range-split :
    (from at to : ℕ) (v : Bytes)
    → from ≤ at
    → at ≤ to
    → to ≤ length v
    → range from to v ≡ range from at v ++ range at to v
range-split from at to v f h k =
    take-add (at - from) (to - at) (to - from) (drop from v) (omega arith)
    ∙ ap (λ t. range from at v ++ take (to - at) t) (drop-drop (at - from) from at v (omega arith))

pub drop-range :
    (n from to : ℕ) (v : Bytes) → from + n ≤ to → drop n (range from to v) ≡ range (from + n) to v
drop-range n from to v h =
    drop-take n (to - from) (to - (from + n)) (drop from v) (omega arith)
    ∙ ap (take (to - (from + n))) (drop-drop n from (from + n) v refl)

-- A range from the start of a copy on: the copy, then what stood behind it.
pub range-copied_from :
    (at to : ℕ) (src dst : Bytes)
    → at + length src ≤ to
    → to ≤ length dst
    → range at to (copied at src dst) ≡ src ++ range (at + length src) to dst
range-copied_from at to src dst h k =
    ap (take (to - at)) (drop-append_past at 0 (take at dst) _ (omega (arith, length-take at dst)))
    ∙ take-append_past (to - at) (to - (at + length src)) src _ (omega arith)
