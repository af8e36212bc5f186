-- ===== src/Http/Context.antt =====
-- net/Http/HttpContext.h and HttpContext.cc: the state machine that reads a request, over any buffer
-- that offers what it uses (Http/Reader). One `step` is one round of the `while` loop.
pub mod Refine
pub mod Progress
pub mod Extend
pub mod Pieces
use clear_moon.Prelude.{
  ℕ, zero, suc, ◌+◌, ◌-◌, Bool, true, false, ◌≡◌, List, [], ◌∷◌, ◌++◌, Option, none, some, Bytes,
  codes, length, take, drop, ltb, leb, if◌then◌else◌,
}
use clear_moon.OrdMap.{equal}
use clear_moon.StdString.{find_char, rfind_char, substr, is_empty, skip_blanks, stoul}
use clear_moon.Http.Reader.{Reader, text_reader}
use clear_moon.Http.Request
use clear_moon.Http.Request.{
  HttpRequest, HttpMethod, HttpVersion, http10, http11, post, put, patch, string_to_method,
  get_header,
}
use clear_moon.Http.Response
use clear_moon.Http.Response.{HttpResponse, bad_request, set_content_type}

pub data ParseState : Type 0 where
  expect_request_line expect_headers expect_body got_all : ParseState

pub record Parser (B : Type 0) : Type 0 where
  pub state : ParseState
  pub buf : B
  pub request : HttpRequest
  pub response : HttpResponse

-- `again` goes round the loop, `returns` leaves `parse`; `aborts` is an exception or a failed assert.
pub data Outcome (B : Type 0) : Type 0 where
  again : Parser B → Outcome B
  returns : Bool → Parser B → Outcome B
  aborts : Outcome B

abbrev pub is_invalid : HttpMethod → Bool
is_invalid HttpMethod.invalid = true
is_invalid _ = false

-- Behind the method: the target between the first and the last space, and the version.
set_target : Bytes → HttpRequest → HttpRequest
set_target url req = elim (find_char b'?' url) [
  | some q ↦ record req { path = substr 0 q url; query = drop (q + 1) url }
  | none ↦ record req { path = url }
]

set_version : Bytes → HttpRequest → Bool × HttpRequest
set_version version req =
    if equal version (codes "HTTP/1.1")
    then (true, record req { version = http11 })
    else if equal version (codes "HTTP/1.0")
    then (true, record req { version = http10 })
    else (false, req)

parse_target : ℕ → Bytes → HttpRequest → Bool × HttpRequest
parse_target first line req = elim (rfind_char b' ' line) [
  | none ↦ (false, req)
  | some last ↦
      if leb last (first + 1)
      then (false, req)
      else set_version (drop (last + 1) line)
          (set_target (substr (first + 1) (last - first - 1) line) req)
]

-- The request is changed up to the point of failure.
unfoldable pub parse_request_line : Bytes → HttpRequest → Bool × HttpRequest
unfolding parse_target set_target set_version
parse_request_line line req = elim (find_char b' ' line) [
  | none ↦ (false, req)
  | some first ↦
      let method = string_to_method (substr 0 first line) in
      if is_invalid method
      then (false, req)
      else parse_target first line (record req { method = method })
]

-- "Key: Value"; a line with no colon is passed over.
unfoldable pub parse_header : Bytes → HttpRequest → HttpRequest
parse_header line req = elim (find_char b':' line) [
  | none ↦ req
  | some colon ↦
      let value = drop (colon + 1) line in
      let trimmed : Bytes = elim (skip_blanks value) [ none ↦ value | some v ↦ v ] in
      Request.set_header (substr 0 colon line) trimmed req
]

-- What the empty line leads to.
abbrev pub after_headers : HttpMethod → ParseState
after_headers post = expect_body
after_headers put = expect_body
after_headers patch = expect_body
after_headers _ = got_all

abbrev pub is_got_all : ParseState → Bool
is_got_all got_all = true
is_got_all _ = false

unfoldable pub bad_request_response : HttpResponse → HttpResponse
bad_request_response r =
    let r =
      set_content_type (codes "text/plain")
        (record r { status = bad_request; body = codes "Bad Request\r\n" }) in
    record r { close_connection = true }

module _ {B : Type 0} (reader : Reader B) where
  -- `more = false`: the loop ends, and `parse` says whether all is there.
  abbrev pub stop : Parser B → Outcome B
  stop p = returns (is_got_all p.state) p

  -- A line up to CR LF is taken off the buffer; without one there is more to wait for.
  unfoldable pub with_line : (Bytes → Parser B → Outcome B) → Parser B → Outcome B
  with_line k p = elim (reader.find_line p.buf) [
    | none ↦ stop p
    | some n ↦ elim (reader.skip (n + 2) p.buf) [
      | none ↦ aborts
      | some rest ↦ k (reader.front n p.buf) (record p { buf = rest })
    ]
  ]

  unfoldable pub on_request_line : Bytes → Parser B → Outcome B
  on_request_line line p =
      let (good, req) = parse_request_line line p.request in
      if good
      then again (record p { state = expect_headers; request = req })
      else returns true (record p { request = req; response = bad_request_response p.response })

  unfoldable pub on_header_line : Bytes → Parser B → Outcome B
  on_header_line line p =
      if is_empty line
      then again (record p { state = after_headers p.request.method })
      else again (record p { request = parse_header line p.request })

  -- With a length in the headers the body is that long.
  unfoldable pub read_body : ℕ → Parser B → Outcome B
  read_body n p =
      if leb n (reader.size p.buf)
      then elim (reader.extract n p.buf) [
        | none ↦ aborts
        | some (body, rest) ↦
            again
              (record p { state = got_all; buf = rest; request = record p.request { body = body } })
      ]
      else stop p

  unfoldable pub on_body : Parser B → Outcome B
  unfolding read_body
  on_body p =
      let length_header = get_header (codes "Content-Length") p.request in
      if is_empty length_header
      then again (record p { state = got_all })
      else elim (stoul length_header) [ none ↦ aborts | some n ↦ read_body n p ]

  unfoldable pub step_in : ParseState → Parser B → Outcome B
  step_in expect_request_line p = with_line on_request_line p
  step_in expect_headers p = with_line on_header_line p
  step_in expect_body p = on_body p
  step_in got_all p = stop p

  unfoldable pub step : Parser B → Outcome B
  unfolding step_in
  step p = step_in p.state p

  -- The loop, with a bound on its rounds: `again` is left where the bound is met.
  unfoldable pub rounds : ℕ → Parser B → Outcome B
  rounds zero p = again p
  rounds (suc n) p = elim (step p) [
    | again q ↦ rounds n q
    | returns r q ↦ returns r q
    | aborts ↦ aborts
  ]

  -- A round takes a line off the buffer, or moves on from the body, or is the last.
  unfoldable pub parse : Parser B → Outcome B
  parse p = rounds (reader.size p.buf + 2) p

-- The machine over plain text.
abbrev pub parse_text : Parser Bytes → Outcome Bytes
parse_text = parse text_reader
