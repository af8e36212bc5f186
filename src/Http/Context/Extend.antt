-- ===== src/Http/Context/Extend.antt =====
-- More bytes behind those that are there: what a round of the parser makes of them.
use clear_moon.Prelude.{
  ℕ, ◌+◌, ◌≤◌, ◌≡◌, refl, inl, inr, true, false, none, arith, Bytes, ◌++◌, codes, length, take,
  drop, leb, leb→le, Bool-cases, Option-cases, length-append, take-append_of_le, drop-append_of_le,
  le→leb,
}
use clear_moon.StdString.{is_empty, stoul}
use clear_moon.Buffer.{search_crlf}
use clear_moon.Buffer.Search.{search_crlf-lt, search_crlf-append}
use clear_moon.Http.Reader.{text_reader}
use clear_moon.Http.Request.{get_header}
use clear_moon.Http.Context.Refine.{with_line-none, with_line-some}
use clear_moon.Http.Context.{
  Parser, ParseState, expect_request_line, expect_headers, expect_body, got_all, Outcome, again,
  returns, aborts, parse_request_line, with_line, on_request_line, on_header_line, read_body,
  on_body, step_in, step, stop,
}

-- More bytes behind those that are there.
abbrev pub extend : Bytes → Parser Bytes → Parser Bytes
extend t p = record p { buf = p.buf ++ t }

-- What a round on `p` that ends in `o` says of the round with more bytes.
abbrev pub Carries : Bytes → Parser Bytes → Outcome Bytes → Outcome Bytes → Type 0
Carries t p (again q) o = o ≡ again (extend t q)
Carries t p (returns true q) o = o ≡ returns true (extend t q)
Carries t p (returns false q) o = q ≡ p
Carries t p aborts o = o ≡ aborts

module _ (t : Bytes) where
  with_line-Carries :
      (k : Bytes → Parser Bytes → Outcome Bytes) (p : Parser Bytes)
      → (search_crlf p.buf ≡ none
          → Carries t p (stop text_reader p) (with_line text_reader k (extend t p)))
      → ((line : Bytes) (q : Parser Bytes) → Carries t p (k line q) (k line (extend t q)))
      → Carries t p (with_line text_reader k p) (with_line text_reader k (extend t p))
  with_line-Carries k p waiting going = elim (Option-cases (search_crlf p.buf)) [
    | inl e ↦ rw (with_line-none text_reader k p e) (waiting e)
    | inr (n, e) ↦
        let fits : n + 2 ≤ length p.buf = search_crlf-lt p.buf n e in
        rw
          (
            with_line-some text_reader k p n (drop (n + 2) p.buf) e refl,
            with_line-some text_reader k (extend t p) n (drop (n + 2) (p.buf ++ t))
                (search_crlf-append p.buf t n e) refl,
            take-append_of_le n p.buf t (omega arith),
            drop-append_of_le (n + 2) p.buf t fits,
          )
          (going (take n p.buf) (record p { buf = drop (n + 2) p.buf }))
  ]

  on_request_line-Carries :
      (p : Parser Bytes) (line : Bytes) (q : Parser Bytes)
      → Carries t p
          (on_request_line text_reader line q)
          (on_request_line text_reader line (extend t q))
  unfolding on_request_line
  on_request_line-Carries p line q = elim (Bool-cases (parse_request_line line q.request).0) [
    | inl e ↦ rw e refl
    | inr e ↦ rw e refl
  ]

  on_header_line-Carries :
      (p : Parser Bytes) (line : Bytes) (q : Parser Bytes)
      → Carries t p
          (on_header_line text_reader line q)
          (on_header_line text_reader line (extend t q))
  unfolding on_header_line
  on_header_line-Carries p line q = elim (Bool-cases (is_empty line)) [
    | inl e ↦ rw e refl
    | inr e ↦ rw e refl
  ]

  read_body-Carries :
      (n : ℕ) (p : Parser Bytes)
      → p.state ≡ expect_body
      → Carries t p (read_body text_reader n p) (read_body text_reader n (extend t p))
  unfolding read_body
  read_body-Carries n p s = elim (Bool-cases (leb n (length p.buf))) [
    | inl e ↦
        let fits : n ≤ length p.buf = leb→le _ _ e in
        rw
          (
            e,
            le→leb n (length (p.buf ++ t)) (omega (arith, length-append p.buf t)),
            take-append_of_le n p.buf t fits,
            drop-append_of_le n p.buf t fits,
          )
          refl
    | inr e ↦ rw (e, s) refl
  ]

  on_body-Carries :
      (p : Parser Bytes)
      → p.state ≡ expect_body
      → Carries t p (on_body text_reader p) (on_body text_reader (extend t p))
  unfolding on_body
  on_body-Carries p s =
      elim (Bool-cases (is_empty (get_header (codes "Content-Length") p.request))) [
        | inl e ↦ rw e refl
        | inr e ↦
            rw e (elim (Option-cases (stoul (get_header (codes "Content-Length") p.request))) [
              | inl f ↦ rw f refl
              | inr (n, f) ↦ rw f (read_body-Carries n p s)
            ])
      ]

  step_in-Carries :
      (s : ParseState) (p : Parser Bytes)
      → p.state ≡ s
      → Carries t p (step_in text_reader s p) (step_in text_reader s (extend t p))
  unfolding step_in
  step_in-Carries expect_request_line p e =
      with_line-Carries _ p (λ f. rw e refl) (on_request_line-Carries p)
  step_in-Carries expect_headers p e =
      with_line-Carries _ p (λ f. rw e refl) (on_header_line-Carries p)
  step_in-Carries expect_body p e = on_body-Carries p e
  step_in-Carries got_all p e = rw e refl

  pub step-Carries :
      (p : Parser Bytes) → Carries t p (step text_reader p) (step text_reader (extend t p))
  unfolding step
  step-Carries p = step_in-Carries p.state p refl
