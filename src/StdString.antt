-- ===== src/StdString.antt =====
-- What the program uses of `std::string`, of `std::stoul` and of the decimal formats `%d` and `%zu`.
pub mod Decimal
use clear_moon.Prelude.{
  ℕ, zero, suc, ◌+◌, ◌-◌, ◌*◌, ◌/◌, ◌%◌, ◌^◌, Bool, true, false, List, [], ◌∷◌, ◌++◌, Option, none,
  some, Bytes, length, take, drop, ltb, leb, ◌==◌, ◌&&◌, ◌||◌, if◌then◌else◌,
}

-- `find(c)`.
unfoldable pub find_char : ℕ → Bytes → Option ℕ
find_char c [] = none
find_char c (x ∷ xs) =
    let rest = find_char c xs in
    if x == c then some 0 else elim rest [ none ↦ none | some i ↦ some (suc i) ]

-- `rfind(c)`.
unfoldable pub rfind_char : ℕ → Bytes → Option ℕ
rfind_char c [] = none
rfind_char c (x ∷ xs) = elim (rfind_char c xs) [
  | some i ↦ some (suc i)
  | none ↦ if x == c then some 0 else none
]

-- `substr(pos, n)` and `substr(pos)` at `pos` inside the string.
abbrev pub substr : ℕ → ℕ → Bytes → Bytes
substr pos n s = take n (drop pos s)

abbrev pub is_empty : Bytes → Bool
is_empty [] = true
is_empty (x ∷ xs) = false

-- `find_first_not_of(" \t")` and `substr` from there; a string of blanks stays.
unfoldable pub skip_blanks : Bytes → Option Bytes
skip_blanks [] = none
skip_blanks (x ∷ xs) =
    let rest = skip_blanks xs in if (x == b' ') || (x == b'\t') then rest else some (x ∷ xs)

abbrev pub is_digit : ℕ → Bool
is_digit c = leb b'0' c && leb c b'9'

-- `isspace`.
abbrev pub is_space : ℕ → Bool
is_space c = (c == b' ') || (leb 9 c && leb c 13)

unfoldable pub skip_spaces : Bytes → Bytes
skip_spaces [] = []
skip_spaces (x ∷ xs) = let rest = skip_spaces xs in if is_space x then rest else x ∷ xs

-- The number that the digits at the front stand for.
unfoldable pub digits_value : ℕ → Bytes → ℕ
digits_value acc [] = acc
digits_value acc (x ∷ xs) =
    let rest = digits_value (acc * 10 + (x - b'0')) xs in if is_digit x then rest else acc

abbrev pub starts_with_digit : Bytes → Bool
starts_with_digit [] = false
starts_with_digit (x ∷ xs) = is_digit x

-- `none` is an exception: no digits, or a value that is no `unsigned long`.
unfoldable pub unsigned_value : Bytes → Option ℕ
unsigned_value s =
    if starts_with_digit s
    then if ltb (digits_value 0 s) (2 ^ 64) then some (digits_value 0 s) else none
    else none

-- A minus sign negates modulo 2 ^ 64.
unfoldable pub signed_value : Bytes → Option ℕ
unfolding unsigned_value
signed_value [] = none
signed_value (x ∷ xs) =
    if x == b'-'
    then elim (unsigned_value xs) [ none ↦ none | some v ↦ some ((2 ^ 64 - v) % 2 ^ 64) ]
    else if x == b'+'
    then unsigned_value xs
    else unsigned_value (x ∷ xs)

unfoldable pub stoul : Bytes → Option ℕ
unfolding signed_value skip_spaces
stoul s = signed_value (skip_spaces s)

-- The decimal digits of a number in front of `acc`; `n + 1` rounds are enough.
unfoldable pub decimal_loop : ℕ → ℕ → Bytes → Bytes
decimal_loop zero n acc = acc
decimal_loop (suc f) n acc =
    let digit = b'0' + n % 10 in
    let rest = decimal_loop f (n / 10) (digit ∷ acc) in if ltb n 10 then digit ∷ acc else rest

unfoldable pub decimal : ℕ → Bytes
unfolding decimal_loop
decimal n = decimal_loop (suc n) n []
