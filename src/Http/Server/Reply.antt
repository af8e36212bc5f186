-- ===== src/Http/Server/Reply.antt =====
-- What `onMessage` does with the bytes that are there.
use clear_moon.Prelude.{
  ◌+◌, ◌≤◌, ◌≡◌, refl, subst, ap, ◌∙◌, Bool, true, false, Option, some, arith, Bytes, [], ◌∷◌, ◌++◌,
  List, inl, inr, length, Bool-cases, if◌then◌else◌,
}
use clear_moon.OrdMap.{find, assign, bytes_key}
use clear_moon.Buffer.{Buffer, create, max_size}
use clear_moon.Buffer.Contents.{IsValid, contents, create-IsValid, peek_all-contents}
use clear_moon.Http.Reader.{buffer_reader}
use clear_moon.Http.Response.{HttpResponse, with_length}
use clear_moon.Http.Response.Wire.{
  head, message, serialize_headers-contents, append_to_buffer-contents,
}
use clear_moon.Http.Context.Refine.{view, view_outcome, IsGoodOutcome, parse_refines}
use clear_moon.Http.Context.{
  Parser, ParseState, expect_request_line, Outcome, again, returns, aborts, parse, parse_text,
}
use clear_moon.Http.Server.{
  HttpServer, Action, send, send_file, HttpCallback, begin, call_back, reply, close_if, respond,
  on_message,
}

-- The bytes that the reply puts on the connection fit a buffer.
abbrev pub Fits : HttpResponse → Type 0
Fits r = (8 + length (head r) ≤ max_size) × (8 + length (message (with_length r)) ≤ max_size)

-- What is sent: the head and then the file, or the whole message.
abbrev pub replied : HttpResponse → List Action
replied r =
    if r.file_mode
    then send (head r) ∷ send_file r.file_path ∷ []
    else send (message (with_length r)) ∷ []

contents-create : contents create ≡ []
unfolding create
contents-create = refl

write_index-create : create.write_index ≡ 8
unfolding create
write_index-create = refl

pub reply-replied : (r : HttpResponse) → Fits r → reply r ≡ some (replied r)
unfolding reply
reply-replied r f = elim (Bool-cases r.file_mode) [
  | inl e ↦
      let (b, g, w, c, _) =
        serialize_headers-contents r create create-IsValid (omega (arith, write_index-create)) in
      ground (arith, peek_all-contents w, c, contents-create)
  | inr e ↦
      let (b, g, w, c) =
        append_to_buffer-contents r create create-IsValid (omega (arith, write_index-create)) in
      ground (arith, peek_all-contents w, c, contents-create)
]

-- A buffer's outcome that looks like `returns r t` over the text is one.
view_outcome-returns :
    (o : Outcome Buffer) (r : Bool) (t : Parser Bytes)
    → view_outcome contents o ≡ returns r t
    → IsGoodOutcome IsValid o
    → (q : Parser Buffer) × (o ≡ returns r q) × (view contents q ≡ t) × IsValid q.buf
view_outcome-returns (again p) r t e g = cc
view_outcome-returns (returns s q) r t e g =
    let same : s ≡ r = cc in (q, ap (λ x. returns x q) same, cc, g)
view_outcome-returns aborts r t e g = cc

parse_returns :
    (state : ParseState) (b : Buffer) (r : Bool) (t : Parser Bytes)
    → IsValid b
    → parse_text (view contents (begin state b)) ≡ returns r t
    → (q : Parser Buffer) × (parse buffer_reader (begin state b) ≡ returns r q)
      × (view contents q ≡ t)
      × IsValid q.buf
unfolding begin
parse_returns state b r t v e =
    let (same, good) = parse_refines (begin state b) v in view_outcome-returns _ r t (same ∙ e) good

-- What the callback makes of a request that the text parser got, `t`, and what `onMessage` does then.
abbrev pub answer : Option HttpCallback → Parser Bytes → HttpResponse × List Action
answer cb t = call_back cb t.request t.response

abbrev pub answered :
    Option HttpCallback
    → Bytes
    → HttpServer
    → Buffer
    → Parser Bytes
    → List Action × Buffer × HttpServer
answered cb name s b t = (
  (answer cb t).1 ++ (replied (answer cb t).0 ++ close_if (answer cb t).0.close_connection),
  b,
  record s { contexts = assign name expect_request_line s.contexts },
)

respond-answered :
    (cb : Option HttpCallback) (name : Bytes) (q : Parser Buffer) (s : HttpServer)
    → Fits (answer cb (view contents q)).0
    → respond cb name q s ≡ some (answered cb name s q.buf (view contents q))
unfolding respond
respond-answered cb name q s f = rw (reply-replied _ f)

module _ (cb : Option HttpCallback) (name : Bytes) (b : Buffer) (s : HttpServer)
    (state : ParseState) (known : find name s.contexts ≡ some state) where
  on_message-respond :
      (q : Parser Buffer)
      → parse buffer_reader (begin state b) ≡ returns true q
      → on_message cb name b s ≡ respond cb name q s
  unfolding on_message
  on_message-respond q e = rw (known, on_message, e)

  on_message-keep :
      (q : Parser Buffer)
      → parse buffer_reader (begin state b) ≡ returns false q
      → on_message cb name b s
        ≡ some ([], q.buf, record s { contexts = assign name q.state s.contexts })
  unfolding on_message
  on_message-keep q e = rw (known, on_message, e)

-- A request that the valid buffer of a known connection holds as a whole, or that is refused, is
-- answered at once, where the reply fits a buffer: the callback runs on it, its response goes out, as a
-- message or as a head and a file, and then the connection is closed if the response says so. The
-- context starts anew, and the bytes behind the request stay in the buffer.
pub on_message_answers :
    (cb : Option HttpCallback) (name : Bytes) (b : Buffer) (s : HttpServer) (state : ParseState)
    (t : Parser Bytes)
    → IsValid b
    → find name s.contexts ≡ some state
    → parse_text (view contents (begin state b)) ≡ returns true t
    → Fits (answer cb t).0
    → (b' : Buffer) × IsValid b'
      × (contents b' ≡ t.buf)
      × (on_message cb name b s ≡ some (answered cb name s b' t))
on_message_answers cb name b s state t v known e f =
    let (q, g, w, vq) = parse_returns state b true t v e in
    (
      q.buf,
      vq,
      ap (λ (p : Parser Bytes). p.buf) w,
      on_message-respond cb name b s state known q g
          ∙ subst
              (λ u. Fits (answer cb u).0 → respond cb name q s ≡ some (answered cb name s q.buf u))
              w (respond-answered cb name q s) f,
    )

-- Where the valid buffer of a known connection lacks bytes of a request, nothing is sent, and the state
-- that the parser came to is kept for the next call.
pub on_message_waits :
    (cb : Option HttpCallback) (name : Bytes) (b : Buffer) (s : HttpServer) (state : ParseState)
    (t : Parser Bytes)
    → IsValid b
    → find name s.contexts ≡ some state
    → parse_text (view contents (begin state b)) ≡ returns false t
    → (b' : Buffer) × IsValid b'
      × (contents b' ≡ t.buf)
      × (on_message cb name b s
          ≡ some ([], b', record s { contexts = assign name t.state s.contexts }))
on_message_waits cb name b s state t v known e =
    let (q, g, w, vq) = parse_returns state b false t v e in
    (
      q.buf,
      vq,
      ap (λ (p : Parser Bytes). p.buf) w,
      on_message-keep cb name b s state known q g
          ∙ ap
              (λ (p : Parser Bytes).
                some ([], q.buf, record s { contexts = assign name p.state s.contexts }))
              w,
    )
