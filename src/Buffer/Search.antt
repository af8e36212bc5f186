-- ===== src/Buffer/Search.antt =====
-- `findCRLF`: the first line end among the readable bytes.
use clear_moon.Prelude.{
  ℕ, zero, suc, ◌+◌, ◌-◌, ◌≤◌, ◌<◌, ◌≡◌, refl, Bool, [], ◌∷◌, ◌++◌, Option, none, some, arith,
  Bytes, length, drop, ◌==◌, ◌&&◌, true, false, if◌then◌else◌,
}
use clear_moon.Buffer.Contents.{IsValid, contents, peek_all-contents}
use clear_moon.Buffer.{Buffer, search_crlf, find_crlf}

-- A line end stands at offset `i`.
abbrev pub LineEnd : ℕ → Bytes → Type 0
LineEnd i s = (rest : Bytes) × (drop i s ≡ b'\r' ∷ b'\n' ∷ rest)

-- The first of a text, or that there is none.
abbrev pub FirstLineEnd : Bytes → Option ℕ → Type 0
FirstLineEnd s none = (j : ℕ) → ¬ LineEnd j s
FirstLineEnd s (some i) = LineEnd i s × ((j : ℕ) → j < i → ¬ LineEnd j s)

not-LineEnd-nil : (j : ℕ) → ¬ LineEnd j []
not-LineEnd-nil zero (rest, e) = cc
not-LineEnd-nil (suc j) (rest, e) = cc

not-LineEnd-one : (x j : ℕ) → ¬ LineEnd j (x ∷ [])
not-LineEnd-one x zero (rest, e) = cc
not-LineEnd-one x (suc j) h = not-LineEnd-nil j h

-- One step of the search, `b` being its test.
FirstLineEnd-cons :
    (x y : ℕ) (xs : Bytes) (b : Bool) (r : Option ℕ)
    → (b ≡ true → (x ≡ b'\r') × (y ≡ b'\n'))
    → (b ≡ false → ¬ LineEnd 0 (x ∷ y ∷ xs))
    → FirstLineEnd (y ∷ xs) r
    → FirstLineEnd
        (x ∷ y ∷ xs)
        (if b then some 0 else elim r [ none ↦ none | some i ↦ some (suc i) ])
FirstLineEnd-cons x y xs true r hit miss h =
    ((xs, cc ((hit refl).0, (hit refl).1)), λ j lt. absurd (omega arith))
FirstLineEnd-cons x y xs false none hit miss h = λ j. at j
  where
    at : (j : ℕ) → ¬ LineEnd j (x ∷ y ∷ xs)
    at zero = miss refl
    at (suc j) = h j
FirstLineEnd-cons x y xs false (some i) hit miss h = (h.0, λ j. at j)
  where
    at : (j : ℕ) → j < suc i → ¬ LineEnd j (x ∷ y ∷ xs)
    at zero lt = miss refl
    at (suc j) lt = h.1 j (omega arith)

pub search_crlf-FirstLineEnd : (s : Bytes) → FirstLineEnd s (search_crlf s)
unfolding search_crlf
search_crlf-FirstLineEnd [] = not-LineEnd-nil
search_crlf-FirstLineEnd (x ∷ []) = not-LineEnd-one x
search_crlf-FirstLineEnd (x ∷ y ∷ xs) =
    FirstLineEnd-cons x y xs ((x == b'\r') && (y == b'\n')) (search_crlf (y ∷ xs))
      (λ e. ground arith) (λ e p. ground (arith, p.1)) (search_crlf-FirstLineEnd (y ∷ xs))

-- `findCRLF` finds the first line end of the queue, and says `nullptr` exactly where there is none.
pub find_crlf-FirstLineEnd : {b : Buffer} → IsValid b → FirstLineEnd (contents b) (find_crlf b)
unfolding find_crlf
find_crlf-FirstLineEnd {b} v = rw (peek_all-contents v) (search_crlf-FirstLineEnd (contents b))

-- The line and its end are inside the text.
pub search_crlf-lt : (s : Bytes) (i : ℕ) → search_crlf s ≡ some i → i + 2 ≤ length s
unfolding search_crlf
search_crlf-lt [] i e = cc
search_crlf-lt (x ∷ []) i e = cc
search_crlf-lt (x ∷ y ∷ xs) i e = ground (arith, search_crlf-lt (y ∷ xs) (i - 1))

-- More bytes behind a line end do not change which is the first.
pub search_crlf-append :
    (s t : Bytes) (i : ℕ) → search_crlf s ≡ some i → search_crlf (s ++ t) ≡ some i
unfolding search_crlf
search_crlf-append [] t i e = cc
search_crlf-append (x ∷ []) t i e = cc
search_crlf-append (x ∷ y ∷ xs) t i e = ground (arith, search_crlf-append (y ∷ xs) t (i - 1))
