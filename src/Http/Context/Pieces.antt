-- ===== src/Http/Context/Pieces.antt =====
-- The input may come in pieces of any size: the parser does what it would do on the whole.
use clear_moon.Prelude.{
  ℕ, zero, suc, ◌+◌, ◌≤◌, ◌≡◌, refl, sym, ap, ◌∙◌, Bool, true, false, arith, Bytes, List, [], ◌∷◌,
  ◌++◌, length, length-append, flatten, subst, append-nil, append_assoc,
}
use clear_moon.Http.Reader.{text_reader}
use clear_moon.Http.Context.Progress.{Ends, parse-Ends}
use clear_moon.Http.Context.{
  Parser, Outcome, again, returns, aborts, step, rounds, parse, parse_text,
}
use clear_moon.Http.Context.Extend.{extend, Carries, step-Carries}

returns-injective :
    {a b : Bool} {p q : Parser Bytes} → ◌≡◌ {A = Outcome Bytes} (returns a p) (returns b q) → p ≡ q
returns-injective e = cc

-- What the loop makes of one round's outcome.
abbrev next : ℕ → Outcome Bytes → Outcome Bytes
next n o = elim o [ again q ↦ rounds text_reader n q | returns r q ↦ returns r q | aborts ↦ aborts ]

-- The loop on `p` with more bytes comes to `q` with more bytes, in some number of rounds.
abbrev Reaches : Bytes → Parser Bytes → Parser Bytes → Type 0
Reaches t p q =
    (j : ℕ) × ((m k : ℕ)
      → m ≡ j + k
      → rounds text_reader m (extend t p) ≡ rounds text_reader k (extend t q))

rounds-suc :
    (m n : ℕ) (p : Parser Bytes) (o : Outcome Bytes)
    → m ≡ suc n
    → step text_reader p ≡ o
    → rounds text_reader m p ≡ next n o
unfolding rounds
rounds-suc zero n p o h e = absurd (omega arith)
rounds-suc (suc m) n p o h e =
    let same : m ≡ n = omega arith in ap (λ i. rounds text_reader (suc i) p) same ∙ ap (next n) e

module _ (t : Bytes) where
  next-Reaches :
      (n : ℕ) (p q : Parser Bytes) (o : Outcome Bytes)
      → Carries t p o (step text_reader (extend t p))
      → ((p' : Parser Bytes) → rounds text_reader n p' ≡ returns false q → Reaches t p' q)
      → next n o ≡ returns false q
      → Reaches t p q
  next-Reaches n p q (again p') c ih e =
      let (j, f) = ih p' e in
      (suc j, λ m k h. rounds-suc m (j + k) (extend t p) _ (omega arith) c ∙ f (j + k) k refl)
  next-Reaches n p q (returns true p') c ih e = cc
  next-Reaches n p q (returns false p') c ih e =
      let same : p ≡ q = sym c ∙ returns-injective e in
      (0, λ m k h. rw same (ap (λ i. rounds text_reader i (extend t q)) (omega arith)))
  next-Reaches n p q aborts c ih e = cc

  rounds-Reaches :
      (n : ℕ) (p q : Parser Bytes) → rounds text_reader n p ≡ returns false q → Reaches t p q
  unfolding rounds
  rounds-Reaches zero p q e = cc
  rounds-Reaches (suc n) p q e =
      next-Reaches n p q (step text_reader p) (step-Carries t p) (λ p'. rounds-Reaches n p' q) e

  next-done :
      (n : ℕ) (p q : Parser Bytes) (o o' : Outcome Bytes)
      → Carries t p o o'
      → ((p' : Parser Bytes)
          → rounds text_reader n p' ≡ returns true q
          → rounds text_reader n (extend t p') ≡ returns true (extend t q))
      → next n o ≡ returns true q
      → next n o' ≡ returns true (extend t q)
  next-done n p q (again p') o' c ih e = rw c (ih p' e)
  next-done n p q (returns true p') o' c ih e = rw (c, returns-injective e)
  next-done n p q (returns false p') o' c ih e = cc
  next-done n p q aborts o' c ih e = cc

  rounds-done :
      (n : ℕ) (p q : Parser Bytes)
      → rounds text_reader n p ≡ returns true q
      → rounds text_reader n (extend t p) ≡ returns true (extend t q)
  unfolding rounds
  rounds-done zero p q e = cc
  rounds-done (suc n) p q e =
      next-done n p q (step text_reader p) _ (step-Carries t p) (λ p'. rounds-done n p' q) e

  next-aborts :
      (n : ℕ) (p : Parser Bytes) (o o' : Outcome Bytes)
      → Carries t p o o'
      → ((p' : Parser Bytes)
          → rounds text_reader n p' ≡ aborts
          → rounds text_reader n (extend t p') ≡ aborts)
      → next n o ≡ aborts
      → next n o' ≡ aborts
  next-aborts n p (again p') o' c ih e = rw c (ih p' e)
  next-aborts n p (returns true p') o' c ih e = cc
  next-aborts n p (returns false p') o' c ih e = cc
  next-aborts n p aborts o' c ih e = rw c

  rounds-aborts :
      (n : ℕ) (p : Parser Bytes)
      → rounds text_reader n p ≡ aborts
      → rounds text_reader n (extend t p) ≡ aborts
  unfolding rounds
  rounds-aborts zero p e = cc
  rounds-aborts (suc n) p e =
      next-aborts n p (step text_reader p) _ (step-Carries t p) (λ p'. rounds-aborts n p') e

next-more :
    (n m : ℕ) (o : Outcome Bytes)
    → ((q : Parser Bytes)
        → Ends (rounds text_reader n q)
        → rounds text_reader m q ≡ rounds text_reader n q)
    → Ends (next n o)
    → next m o ≡ next n o
next-more n m (again q) ih h = ih q h
next-more n m (returns r q) ih h = refl
next-more n m aborts ih h = refl

-- More rounds than are needed change nothing.
rounds-more :
    (n m : ℕ) (p : Parser Bytes)
    → n ≤ m
    → Ends (rounds text_reader n p)
    → rounds text_reader m p ≡ rounds text_reader n p
unfolding rounds
rounds-more zero m p h e = absurd e
rounds-more (suc n) zero p h e = absurd (omega arith)
rounds-more (suc n) (suc m) p h e =
    next-more n m (step text_reader p) (λ q. rounds-more n m q (omega arith)) e

parse-rounds :
    (m : ℕ) (p : Parser Bytes) → length p.buf + 2 ≤ m → rounds text_reader m p ≡ parse_text p
unfolding parse
parse-rounds m p h = rounds-more (length p.buf + 2) m p h (parse-Ends p)

-- Where the parser asks for more, feeding it the rest is feeding it everything at once: the request,
-- the response, the state and the bytes left over come out the same.
pub parse-extend_waits :
    (t : Bytes) (p q : Parser Bytes)
    → parse_text p ≡ returns false q
    → parse_text (extend t p) ≡ parse_text (extend t q)
unfolding parse
parse-extend_waits t p q e =
    let (j, f) = rounds-Reaches t (length p.buf + 2) p q e in
    let k : ℕ = length (p.buf ++ t) + length (q.buf ++ t) + 2 in
    sym (parse-rounds (j + k) (extend t p) (omega arith))
    ∙ f (j + k) k refl
    ∙ parse-rounds k (extend t q) (omega arith)

-- Where the parser returns true, it does so with more bytes behind its input, with the same request and
-- response, and leaves those bytes for the next request.
pub parse-extend_done :
    (t : Bytes) (p q : Parser Bytes)
    → parse_text p ≡ returns true q
    → parse_text (extend t p) ≡ returns true (extend t q)
unfolding parse
parse-extend_done t p q e =
    let n : ℕ = length p.buf + 2 in
    let done : rounds text_reader n (extend t p) ≡ returns true (extend t q) =
      rounds-done t n p q e in
    let ends : Ends (returns true q) = subst Ends e (parse-Ends p) in
    rounds-more n (length (p.buf ++ t) + 2) (extend t p) (omega (arith, length-append p.buf t))
      (rw done ends)
    ∙ done

parse-extend_aborts :
    (t : Bytes) (p : Parser Bytes) → parse_text p ≡ aborts → parse_text (extend t p) ≡ aborts
unfolding parse
parse-extend_aborts t p e =
    let n : ℕ = length p.buf + 2 in
    let done : rounds text_reader n (extend t p) ≡ aborts = rounds-aborts t n p e in
    rounds-more n (length (p.buf ++ t) + 2) (extend t p) (omega (arith, length-append p.buf t))
      (rw done tt)
    ∙ done

extend-nil : (p : Parser Bytes) → extend [] p ≡ p
extend-nil p = λ i. record p { buf = append-nil p.buf i }

extend-append : (s t : Bytes) (p : Parser Bytes) → extend (s ++ t) p ≡ extend t (extend s p)
extend-append s t p = λ i. record p { buf = sym (append_assoc p.buf s t) i }

-- One call of `parse` for each piece as it arrives, with the request and the response kept from call to
-- call. What comes after a complete request stays in the buffer.
pub feed : List Bytes → Parser Bytes → Outcome Bytes
feed [] p = returns false p
feed (s ∷ ss) p = elim (parse_text (extend s p)) [
  | again q ↦ again q
  | returns true q ↦ returns true (extend (flatten ss) q)
  | returns false q ↦ feed ss q
  | aborts ↦ aborts
]

-- Waiting is final: without more bytes the parser goes on waiting.
waits_again : (p q : Parser Bytes) → parse_text p ≡ returns false q → parse_text q ≡ returns false q
waits_again p q e =
    ap parse_text (sym (extend-nil q))
    ∙ sym (parse-extend_waits [] p q e)
    ∙ ap parse_text (extend-nil p)
    ∙ e

-- What `feed` makes of the first piece.
feed_rest : List Bytes → Outcome Bytes → Outcome Bytes
feed_rest ss (again q) = again q
feed_rest ss (returns true q) = returns true (extend (flatten ss) q)
feed_rest ss (returns false q) = feed ss q
feed_rest ss aborts = aborts

feed_rest-eq-parse_text :
    (ss : List Bytes) (p : Parser Bytes) (o : Outcome Bytes)
    → parse_text p ≡ o
    → Ends o
    → ((q : Parser Bytes)
        → parse_text q ≡ returns false q
        → feed ss q ≡ parse_text (extend (flatten ss) q))
    → feed_rest ss o ≡ parse_text (extend (flatten ss) p)
unfolding feed_rest
feed_rest-eq-parse_text ss p (again q) e h ih = absurd h
feed_rest-eq-parse_text ss p (returns true q) e h ih = sym (parse-extend_done (flatten ss) p q e)
feed_rest-eq-parse_text ss p (returns false q) e h ih =
    ih q (waits_again p q e) ∙ sym (parse-extend_waits (flatten ss) p q e)
feed_rest-eq-parse_text ss p aborts e h ih = sym (parse-extend_aborts (flatten ss) p e)

feed-cons :
    (s : Bytes) (ss : List Bytes) (p : Parser Bytes) (o : Outcome Bytes)
    → parse_text (extend s p) ≡ o
    → feed (s ∷ ss) p ≡ feed_rest ss o
unfolding feed feed_rest
feed-cons s ss p (again q) e = rw (e, feed)
feed-cons s ss p (returns true q) e = rw (e, feed)
feed-cons s ss p (returns false q) e = rw (e, feed)
feed-cons s ss p aborts e = rw (e, feed)

-- For a parser that waits: however the bytes that follow are cut into pieces, and fed with one request
-- kept throughout, it comes to what it comes to on all of them at once.
pub feed-eq-parse_text :
    (ss : List Bytes) (p : Parser Bytes)
    → parse_text p ≡ returns false p
    → feed ss p ≡ parse_text (extend (flatten ss) p)
unfolding feed
feed-eq-parse_text [] p e = sym (ap parse_text (extend-nil p) ∙ e)
feed-eq-parse_text (s ∷ ss) p e =
    feed-cons s ss p _ refl
    ∙ feed_rest-eq-parse_text ss (extend s p) _ refl (parse-Ends (extend s p))
        (feed-eq-parse_text ss)
    ∙ ap parse_text (sym (extend-append s (flatten ss) p))
