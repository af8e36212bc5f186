-- ===== src/Http/Server/Split.antt =====
-- A request whose bytes arrive in more than one read. The state is kept from call to call, the request
-- is not.
use clear_moon.Prelude.{
  ℕ, zero, suc, ◌+◌, ◌≡◌, ◌≢◌, refl, sym, ap, ◌∙◌, ◌⊎◌, inl, inr, true, false, Option, none, some,
  List, arith, Bytes, codes, subst, [], drop, Bool-cases, Option-cases,
}
use clear_moon.StdString.{is_empty}
use clear_moon.Buffer.{Buffer, search_crlf}
use clear_moon.Buffer.Contents.{IsValid, contents}
use clear_moon.Http.Reader.{text_reader, buffer_reader}
use clear_moon.OrdMap.{find, assign, bytes_key}
use clear_moon.Http.Request
use clear_moon.Http.Request.{HttpRequest, invalid, unknown, get_header}
use clear_moon.Http.Context.Refine.{
  with_line-none, with_line-some, view, view_outcome, parse_refines,
}
use clear_moon.Http.Context.{
  Parser, ParseState, expect_request_line, expect_headers, expect_body, got_all, Outcome, again,
  returns, aborts, parse_header, on_header_line, on_body, step, step_in, rounds, parse, parse_text,
}
use clear_moon.Http.Server.{HttpServer, Action, HttpCallback, begin, respond, on_message}

-- A request that knows nothing but headers.
pub record IsAnonymous (r : HttpRequest) : Type 0 where
  pub no_method : r.method ≡ invalid
  pub no_path : r.path ≡ []
  pub no_query : r.query ≡ []
  pub no_version : r.version ≡ unknown
  pub no_body : r.body ≡ []

-- Past the request line; before a body there is no length for it.
abbrev Past : ParseState → HttpRequest → Type 0
Past expect_request_line r = ⊥
Past expect_headers r = Unit
Past expect_body r = is_empty (get_header (codes "Content-Length") r) ≡ true
Past got_all r = Unit

-- Past the request line, with nothing of it.
record IsLost (p : Parser Bytes) : Type 0 where
  past : Past p.state p.request
  anonymous : IsAnonymous p.request

abbrev StaysLost : Outcome Bytes → Type 0
StaysLost (again q) = IsLost q
StaysLost (returns r q) = IsLost q
StaysLost aborts = Unit {0}

parse_header-IsAnonymous :
    (line : Bytes) (r : HttpRequest) → IsAnonymous r → IsAnonymous (parse_header line r)
unfolding parse_header
parse_header-IsAnonymous line r a = ground arith

Past-headers : (s : ParseState) (r : HttpRequest) → s ≡ expect_headers → Past s r
Past-headers s r e = subst (λ x. Past x r) (sym e) tt

on_header_line-StaysLost :
    (line : Bytes) (p : Parser Bytes)
    → p.state ≡ expect_headers
    → IsAnonymous p.request
    → StaysLost (on_header_line text_reader line p)
unfolding on_header_line
on_header_line-StaysLost line p s a = elim (Bool-cases (is_empty line)) [
  | inl e ↦
      rw (e, a.no_method)
        (record {
          past = tt;
          anonymous = record {
            no_method = refl;
            no_path = a.no_path;
            no_query = a.no_query;
            no_version = a.no_version;
            no_body = a.no_body;
          };
        })
  | inr e ↦ rw e (record {
    past = Past-headers p.state (parse_header line p.request) s;
    anonymous = parse_header-IsAnonymous line p.request a;
  })
]

step_in-StaysLost :
    (s : ParseState) (p : Parser Bytes)
    → p.state ≡ s
    → Past s p.request
    → IsAnonymous p.request
    → StaysLost (step_in text_reader s p)
unfolding step_in on_body
step_in-StaysLost expect_request_line p e past a = absurd past
step_in-StaysLost expect_body p e past a = rw past (record { past = tt; anonymous = a })
step_in-StaysLost got_all p e past a = record {
  past = subst (λ x. Past x p.request) (sym e) tt;
  anonymous = a;
}
step_in-StaysLost expect_headers p e past a = elim (Option-cases (search_crlf p.buf)) [
  | inl f ↦
      rw (with_line-none text_reader (on_header_line text_reader) p f)
        (record { past = Past-headers p.state p.request e; anonymous = a })
  | inr (n, f) ↦
      rw (with_line-some text_reader (on_header_line text_reader) p n (drop (n + 2) p.buf) f refl)
        (on_header_line-StaysLost _ (record p { buf = drop (n + 2) p.buf }) e a)
]

next-StaysLost :
    (n : ℕ) (o : Outcome Bytes)
    → ((q : Parser Bytes) → IsLost q → StaysLost (rounds text_reader n q))
    → StaysLost o
    → StaysLost
        (elim o [ again q ↦ rounds text_reader n q | returns r q ↦ returns r q | aborts ↦ aborts ])
next-StaysLost n (again q) ih l = ih q l
next-StaysLost n (returns r q) ih l = l
next-StaysLost n aborts ih l = tt

rounds-StaysLost : (n : ℕ) (p : Parser Bytes) → IsLost p → StaysLost (rounds text_reader n p)
unfolding rounds step
rounds-StaysLost zero p l = l
rounds-StaysLost (suc n) p l =
    next-StaysLost n _ (rounds-StaysLost n) (step_in-StaysLost p.state p refl l.past l.anonymous)

Past-of : (s : ParseState) → s ≢ expect_request_line → Past s Request.fresh
Past-of expect_request_line n = n refl
Past-of expect_headers n = tt
Past-of expect_body n = refl
Past-of got_all n = tt

fresh-IsLost :
    (state : ParseState) (b : Buffer)
    → state ≢ expect_request_line
    → IsLost (view contents (begin state b))
unfolding begin
fresh-IsLost state b n = record {
  past = Past-of state n;
  anonymous = record {
    no_method = refl;
    no_path = refl;
    no_query = refl;
    no_version = refl;
    no_body = refl;
  };
}

parse_is_lost :
    (state : ParseState) (b : Buffer) (o : Outcome Buffer)
    → state ≢ expect_request_line
    → IsValid b
    → parse buffer_reader (begin state b) ≡ o
    → StaysLost (view_outcome contents o)
unfolding begin
parse_is_lost state b o n v e =
    let lost : StaysLost (parse_text (view contents (begin state b))) =
      unfold parse in rounds-StaysLost _ _ (fresh-IsLost state b n) in
    subst StaysLost (sym (parse_refines (begin state b) v).0 ∙ ap (view_outcome contents) e) lost

-- Three ways for `onMessage` to end: it fails, it waits with no action, or it answers a request that is
-- anonymous.
abbrev pub AnswersNothing :
    Option HttpCallback → Bytes → HttpServer → Option (List Action × Buffer × HttpServer) → Type 0
AnswersNothing cb name s o =
    (o ≡ none)
    ⊎ (((rest : Buffer) × (s' : HttpServer) × (o ≡ some ([], rest, s')))
        ⊎ ((q : Parser Buffer) × (o ≡ respond cb name q s) × IsAnonymous q.request))

-- Where the request line of a request came in an earlier read, its headers too or not (the state that
-- is kept for the connection is not the first one), whatever bytes follow: `onMessage` fails, or takes no
-- action and waits, or hands a request to the callback that has no method, path, query, version or body.
pub split_request_is_lost :
    (cb : Option HttpCallback) (name : Bytes) (b : Buffer) (s : HttpServer) (state : ParseState)
    → IsValid b
    → find name s.contexts ≡ some state
    → state ≢ expect_request_line
    → AnswersNothing cb name s (on_message cb name b s)
unfolding on_message
split_request_is_lost cb name b s state v f n =
    rw (f, on_message)
      (by_outcome (parse buffer_reader (begin state b)) (parse_is_lost state b _ n v refl))
  where
    by_outcome :
        (o : Outcome Buffer)
        → StaysLost (view_outcome contents o)
        → AnswersNothing cb name s (elim o [
          | again q ↦ none
          | aborts ↦ none
          | returns true q ↦ respond cb name q s
          | returns false q ↦
              some ([], q.buf, record s { contexts = assign name q.state s.contexts })
        ])
    by_outcome (again q) l = inl refl
    by_outcome aborts l = inl refl
    by_outcome (returns true q) l = inr (inr (q, refl, l.anonymous))
    by_outcome (returns false q) l = inr (inl (q.buf, _, refl))
