-- ===== src/Http/Context/Refine.antt =====
-- The parser over a buffer does what it does over the text of the readable bytes.
use clear_moon.Prelude.{
  ℕ, zero, suc, ◌+◌, ◌≤◌, ◌≡◌, refl, ◌∙◌, inl, inr, none, some, arith, Bytes, codes, length, drop,
  leb, Bool-cases, Option-cases,
}
use clear_moon.StdString.{is_empty, stoul}
use clear_moon.Buffer.{Buffer, search_crlf}
use clear_moon.Buffer.Contents.{IsValid, contents}
use clear_moon.Buffer.Search.{search_crlf-lt}
use clear_moon.Http.Reader.{Reader, Reads, text_reader, buffer_reader, buffer_reader-Reads}
use clear_moon.Http.Request.{get_header}
use clear_moon.Http.Context.{
  Parser, ParseState, expect_request_line, expect_headers, expect_body, got_all, Outcome, again,
  returns, aborts, parse_request_line, with_line, on_request_line, on_header_line, read_body,
  on_body, step_in, step, rounds, parse, parse_text, stop,
}

module _ {B : Type 0} (reader : Reader B) (k : Bytes → Parser B → Outcome B) where
  pub with_line-none :
      (p : Parser B) → reader.find_line p.buf ≡ none → with_line reader k p ≡ stop reader p
  unfolding with_line
  with_line-none p e = rw (e, with_line)

  pub with_line-some :
      (p : Parser B) (n : ℕ) (rest : B)
      → reader.find_line p.buf ≡ some n
      → reader.skip (n + 2) p.buf ≡ some rest
      → with_line reader k p ≡ k (reader.front n p.buf) (record p { buf = rest })
  unfolding with_line
  with_line-some p n rest e f = rw (e, with_line, f)

-- The parser with its buffer replaced by the text of it.
module _ {B : Type 0} (text : B → Bytes) where
  abbrev pub view : Parser B → Parser Bytes
  view p = record { state = p.state; buf = text p.buf; request = p.request; response = p.response }

  abbrev pub view_outcome : Outcome B → Outcome Bytes
  view_outcome (again p) = again (view p)
  view_outcome (returns r p) = returns r (view p)
  view_outcome aborts = aborts

module _ {B : Type 0} (IsGood : B → Type 0) where
  abbrev pub IsGoodOutcome : Outcome B → Type 0
  IsGoodOutcome (again p) = IsGood p.buf
  IsGoodOutcome (returns r p) = IsGood p.buf
  IsGoodOutcome aborts = Unit {0}

module _ {B : Type 0} (reader : Reader B) (IsGood : B → Type 0) (text : B → Bytes)
    (laws : Reads reader IsGood text) where
  -- An outcome over the buffer, against one over the text.
  abbrev Refines : Outcome B → Outcome Bytes → Type 0
  Refines o t = (view_outcome text o ≡ t) × IsGoodOutcome IsGood o

  with_line-Refines :
      (k : Bytes → Parser B → Outcome B) (l : Bytes → Parser Bytes → Outcome Bytes)
      → ((line : Bytes) (q : Parser B) → IsGood q.buf → Refines (k line q) (l line (view text q)))
      → (p : Parser B) → IsGood p.buf
      → Refines (with_line reader k p) (with_line text_reader l (view text p))
  with_line-Refines k l h p g = elim (Option-cases (search_crlf (text p.buf))) [
    | inl e ↦
        rw
          (
            with_line-none reader k p (laws.find_line_lem p.buf g ∙ e),
            with_line-none text_reader l (view text p) e,
          )
          (refl, g)
    | inr (n, e) ↦
        let inside : n + 2 ≤ length (text p.buf) = search_crlf-lt _ n e in
        let (rest, f, g', c) = laws.skip_lem (n + 2) p.buf g inside in
        rw
          (
            with_line-some reader k p n rest (laws.find_line_lem p.buf g ∙ e) f,
            with_line-some text_reader l (view text p) n (drop (n + 2) (text p.buf)) e refl,
            laws.front_lem n p.buf g (omega arith),
            ← c,
          )
          (h _ (record p { buf = rest }) g')
  ]

  on_request_line-Refines :
      (line : Bytes) (p : Parser B)
      → IsGood p.buf
      → Refines (on_request_line reader line p) (on_request_line text_reader line (view text p))
  unfolding on_request_line
  on_request_line-Refines line p g = elim (Bool-cases (parse_request_line line p.request).0) [
    | inl e ↦ rw e (refl, g)
    | inr e ↦ rw e (refl, g)
  ]

  on_header_line-Refines :
      (line : Bytes) (p : Parser B)
      → IsGood p.buf
      → Refines (on_header_line reader line p) (on_header_line text_reader line (view text p))
  unfolding on_header_line
  on_header_line-Refines line p g = elim (Bool-cases (is_empty line)) [
    | inl e ↦ rw e (refl, g)
    | inr e ↦ rw e (refl, g)
  ]

  read_body-Refines :
      (n : ℕ) (p : Parser B)
      → IsGood p.buf
      → Refines (read_body reader n p) (read_body text_reader n (view text p))
  unfolding read_body
  read_body-Refines n p g =
      let (rest, f, g', c) = laws.extract_lem n p.buf g in
      rw (laws.size_lem p.buf g, f, ← c)
        (elim (Bool-cases (leb n (length (text p.buf)))) [
          | inl e ↦ rw e (refl, g')
          | inr e ↦ rw e (refl, g)
        ])

  on_body-Refines :
      (p : Parser B) → IsGood p.buf → Refines (on_body reader p) (on_body text_reader (view text p))
  unfolding on_body
  on_body-Refines p g =
      elim (Bool-cases (is_empty (get_header (codes "Content-Length") p.request))) [
        | inl e ↦ rw e (refl, g)
        | inr e ↦
            rw e (elim (Option-cases (stoul (get_header (codes "Content-Length") p.request))) [
              | inl f ↦ rw f (refl, tt)
              | inr (n, f) ↦ rw f (read_body-Refines n p g)
            ])
      ]

  step_in-Refines :
      (s : ParseState) (p : Parser B)
      → IsGood p.buf
      → Refines (step_in reader s p) (step_in text_reader s (view text p))
  unfolding step_in
  step_in-Refines expect_request_line p g = with_line-Refines _ _ on_request_line-Refines p g
  step_in-Refines expect_headers p g = with_line-Refines _ _ on_header_line-Refines p g
  step_in-Refines expect_body p g = on_body-Refines p g
  step_in-Refines got_all p g = (refl, g)

  continue-Refines :
      (n : ℕ) (o : Outcome B) (t : Outcome Bytes)
      → ((q : Parser B)
          → IsGood q.buf
          → Refines (rounds reader n q) (rounds text_reader n (view text q)))
      → Refines o t
      → Refines
          (elim o [ again q ↦ rounds reader n q | returns r q ↦ returns r q | aborts ↦ aborts ])
          (elim t [
            | again q ↦ rounds text_reader n q
            | returns r q ↦ returns r q
            | aborts ↦ aborts
          ])
  continue-Refines n (again q) t h (e, g) = rw (← e) (h q g)
  continue-Refines n (returns r q) t h (e, g) = rw (← e) (refl, g)
  continue-Refines n aborts t h (e, g) = rw (← e) (refl, tt)

  rounds-Refines :
      (n : ℕ) (p : Parser B)
      → IsGood p.buf
      → Refines (rounds reader n p) (rounds text_reader n (view text p))
  unfolding rounds step
  rounds-Refines zero p g = (refl, g)
  rounds-Refines (suc n) p g =
      continue-Refines n _ _ (rounds-Refines n) (step_in-Refines p.state p g)

  pub parse-Refines :
      (p : Parser B) → IsGood p.buf → Refines (parse reader p) (parse_text (view text p))
  unfolding parse
  parse-Refines p g = rw (laws.size_lem p.buf g) (rounds-Refines (length (text p.buf) + 2) p g)

-- Over a valid buffer the parser does what it does over the bytes that are readable there: how they
-- lie in memory plays no part, and the buffer stays valid.
pub parse_refines :
    (p : Parser Buffer)
    → IsValid p.buf
    → (view_outcome contents (parse buffer_reader p) ≡ parse_text (view contents p))
      × IsGoodOutcome IsValid (parse buffer_reader p)
parse_refines p v = parse-Refines buffer_reader IsValid contents buffer_reader-Reads p v
