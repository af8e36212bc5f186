-- ===== src/Http/Context/Progress.antt =====
-- The loop of `parse` ends, and waits only where bytes are missing.
use clear_moon.Prelude.{
  ℕ, zero, suc, ◌+◌, ◌≤◌, ◌<◌, ◌≡◌, refl, ◌⊎◌, inl, inr, true, false, none, some, arith, Bytes,
  codes, length, take, drop, leb, Bool-cases, Option-cases, length-drop,
}
use clear_moon.StdString.{is_empty, stoul}
use clear_moon.Buffer.{search_crlf}
use clear_moon.Buffer.Search.{search_crlf-lt}
use clear_moon.Http.Reader.{text_reader}
use clear_moon.Http.Request.{HttpMethod, get_header, invalid}
use clear_moon.Http.Response.{bad_request}
use clear_moon.Http.Context.Refine.{with_line-none, with_line-some}
use clear_moon.Http.Context.{
  Parser, ParseState, expect_request_line, expect_headers, expect_body, got_all, Outcome, again,
  returns, aborts, parse_request_line, with_line, on_request_line, on_header_line, read_body,
  on_body, step_in, step, rounds, parse, parse_text, stop, after_headers, bad_request_response,
}

abbrev rank : ParseState → ℕ
rank expect_body = 1
rank _ = 0

-- Bytes left, and one for a body that is still to be read.
abbrev pub measure : Parser Bytes → ℕ
measure p = length p.buf + rank p.state

-- Why the parser may wait: no line end, or a body shorter than announced.
abbrev pub Lacks : ParseState → Parser Bytes → Type 0
Lacks expect_body p =
    (n : ℕ) × (stoul (get_header (codes "Content-Length") p.request) ≡ some n) × (length p.buf < n)
Lacks got_all p = ⊥
Lacks _ p = search_crlf p.buf ≡ none

-- What a round may end in: nearer to the end, a whole request or a refused one, or a lack.
abbrev pub Sound : ℕ → Outcome Bytes → Type 0
Sound m (again q) = measure q < m
Sound m (returns true q) = (q.state ≡ got_all) ⊎ (q.response.status ≡ bad_request)
Sound m (returns false q) = Lacks q.state q
Sound m aborts = Unit {0}

rank-after_headers : (m : HttpMethod) → rank (after_headers m) ≤ 1
rank-after_headers invalid = omega arith
rank-after_headers _ = omega arith

with_line-Sound :
    (k : Bytes → Parser Bytes → Outcome Bytes) (p : Parser Bytes)
    → (search_crlf p.buf ≡ none → Sound (measure p) (stop text_reader p))
    → ((line rest : Bytes)
        → length rest + 2 ≤ length p.buf
        → Sound (measure p) (k line (record p { buf = rest })))
    → Sound (measure p) (with_line text_reader k p)
with_line-Sound k p waiting going = elim (Option-cases (search_crlf p.buf)) [
  | inl e ↦ rw (with_line-none text_reader k p e) (waiting e)
  | inr (n, e) ↦ rw (with_line-some text_reader k p n (drop (n + 2) p.buf) e refl) (
      going (take n p.buf) (drop (n + 2) p.buf)
        (omega (arith, length-drop (n + 2) p.buf, search_crlf-lt p.buf n e)))
]

on_request_line-Sound :
    (line : Bytes) (p : Parser Bytes) (m : ℕ)
    → length p.buf + 2 ≤ m
    → Sound m (on_request_line text_reader line p)
unfolding on_request_line bad_request_response
on_request_line-Sound line p m h = elim (Bool-cases (parse_request_line line p.request).0) [
  | inl e ↦ rw e (omega arith)
  | inr e ↦ rw e (inr refl)
]

on_header_line-Sound :
    (line : Bytes) (p : Parser Bytes) (m : ℕ)
    → p.state ≡ expect_headers
    → length p.buf + 2 ≤ m
    → Sound m (on_header_line text_reader line p)
unfolding on_header_line
on_header_line-Sound line p m s h = elim (Bool-cases (is_empty line)) [
  | inl e ↦ rw e (omega (arith, rank-after_headers p.request.method))
  | inr e ↦ rw (e, s) (omega arith)
]

read_body-Sound :
    (n : ℕ) (p : Parser Bytes)
    → p.state ≡ expect_body
    → stoul (get_header (codes "Content-Length") p.request) ≡ some n
    → Sound (measure p) (read_body text_reader n p)
unfolding read_body
read_body-Sound n p s e = elim (Bool-cases (leb n (length p.buf))) [
  | inl f ↦ rw (f, s) (omega (arith, length-drop n p.buf))
  | inr f ↦ rw (f, s) (n, e, ground arith)
]

on_body-Sound :
    (p : Parser Bytes) → p.state ≡ expect_body → Sound (measure p) (on_body text_reader p)
unfolding on_body
on_body-Sound p s = elim (Bool-cases (is_empty (get_header (codes "Content-Length") p.request))) [
  | inl e ↦ rw (e, s) (omega arith)
  | inr e ↦ rw e (elim (Option-cases (stoul (get_header (codes "Content-Length") p.request))) [
    | inl f ↦ rw f tt
    | inr (n, f) ↦ rw f (read_body-Sound n p s f)
  ])
]

step_in-Sound :
    (s : ParseState) (p : Parser Bytes) → p.state ≡ s → Sound (measure p) (step_in text_reader s p)
unfolding step_in
step_in-Sound expect_request_line p e =
    with_line-Sound _ p (λ f. rw e f)
      (λ line rest h. on_request_line-Sound line (record p { buf = rest }) _ (omega arith))
step_in-Sound expect_headers p e =
    with_line-Sound _ p (λ f. rw e f)
      (λ line rest h. on_header_line-Sound line (record p { buf = rest }) _ e (omega arith))
step_in-Sound expect_body p e = on_body-Sound p e
step_in-Sound got_all p e = rw e (inl refl)

pub step-Sound : (p : Parser Bytes) → Sound (measure p) (step text_reader p)
unfolding step
step-Sound p = step_in-Sound p.state p refl

-- The loop gets to its end within its bound.
abbrev pub Ends : Outcome Bytes → Type 0
Ends (again q) = ⊥
Ends o = Sound 0 o

continue-Ends :
    (n m : ℕ) (o : Outcome Bytes)
    → m < suc n
    → ((q : Parser Bytes) → measure q < n → Ends (rounds text_reader n q))
    → Sound m o
    → Ends
        (elim o [ again q ↦ rounds text_reader n q | returns r q ↦ returns r q | aborts ↦ aborts ])
continue-Ends n m (again q) h ih s = ih q (omega arith)
continue-Ends n m (returns true q) h ih s = s
continue-Ends n m (returns false q) h ih s = s
continue-Ends n m aborts h ih s = tt

pub rounds-Ends : (n : ℕ) (p : Parser Bytes) → measure p < n → Ends (rounds text_reader n p)
unfolding rounds
rounds-Ends zero p h = absurd (omega arith)
rounds-Ends (suc n) p h = continue-Ends n (measure p) _ h (λ q. rounds-Ends n q) (step-Sound p)

rank-le : (s : ParseState) → rank s ≤ 1
rank-le expect_body = omega arith
rank-le _ = omega arith

-- `parse` comes to an end on any input: it returns true with a whole request or the answer 400, or
-- false where a line end or a part of the body is missing, or it throws.
pub parse-Ends : (p : Parser Bytes) → Ends (parse_text p)
unfolding parse
parse-Ends p = rounds-Ends (length p.buf + 2) p (omega (arith, rank-le p.state))
