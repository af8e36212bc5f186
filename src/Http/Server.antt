-- ===== src/Http/Server.antt =====
-- net/Http/HttpServer.h and HttpServer.cc: one parser state for each connection, the user's callback,
-- and what is sent. What happens to the connection is a list of actions, in order; the callback is an
-- argument, and may act on the connection too.
pub mod Reply
pub mod Split
use clear_moon.Prelude.{
  ℕ, Bool, true, false, List, [], ◌∷◌, ◌++◌, Option, none, some, ◌>>=◌, Bytes, codes, if◌then◌else◌,
}
use clear_moon.OrdMap.{OrdMap, find, assign, erase, bytes_key}
use clear_moon.Buffer.{Buffer, create, peek, readable_bytes}
use clear_moon.Http.Reader.{buffer_reader}
use clear_moon.Http.Request
use clear_moon.Http.Request.{HttpRequest}
use clear_moon.Http.Response
use clear_moon.Http.Response.{HttpResponse, serialize_headers, append_to_buffer}
use clear_moon.Http.Context.{
  Parser, ParseState, expect_request_line, Outcome, again, returns, aborts, parse,
}

-- The server's map, by the name of the connection; a context is its state.
pub record HttpServer : Type 0 where
  pub contexts : OrdMap Bytes ParseState

pub data Action : Type 0 where
  send : Bytes → Action
  send_file : Bytes → Action
  force_close : Action

abbrev pub HttpCallback : Type 0
HttpCallback = HttpRequest → HttpResponse → HttpResponse × List Action

unfoldable pub on_connection : Bool → Bytes → HttpServer → HttpServer
on_connection true name s = record s { contexts = assign name expect_request_line s.contexts }
on_connection false name s = record s { contexts = erase name s.contexts }

-- A call starts with a new request and a new response, whatever the state.
unfoldable pub begin : ParseState → Buffer → Parser Buffer
begin state buf = record {
  state = state;
  buf = buf;
  request = Request.fresh;
  response = Response.set_header (codes "Connection") (codes "keep-alive") Response.fresh;
}

-- `if(cb_)`: no callback leaves the response as it is.
abbrev pub call_back : Option HttpCallback → HttpRequest → HttpResponse → HttpResponse × List Action
call_back none req resp = (resp, [])
call_back (some f) req resp = f req resp

-- The headers, and the file by itself; or the whole message.
unfoldable pub reply : HttpResponse → Option (List Action)
reply resp =
    if resp.file_mode
    then (do
      out ← serialize_headers resp create
      some (send (peek (readable_bytes out) out) ∷ send_file resp.file_path ∷ []))
    else (do
      out ← append_to_buffer resp create
      some (send (peek (readable_bytes out.1) out.1) ∷ []))

abbrev pub close_if : Bool → List Action
close_if true = force_close ∷ []
close_if false = []

-- After a request, or a refused one: the callback, the reply, and the context starts anew.
unfoldable pub respond :
    Option HttpCallback
    → Bytes
    → Parser Buffer
    → HttpServer
    → Option (List Action × Buffer × HttpServer)
respond cb name q s = do
  let (resp, acts) = call_back cb q.request q.response
  sent ← reply resp
  some (
    acts ++ (sent ++ close_if resp.close_connection),
    q.buf,
    record s { contexts = assign name expect_request_line s.contexts },
  )

-- `none` is an exception or an abort. (`parse` never leaves the loop by its bound.)
unfoldable pub on_message :
    Option HttpCallback → Bytes → Buffer → HttpServer → Option (List Action × Buffer × HttpServer)
on_message cb name buf s = elim (find name s.contexts) [
  | none ↦ some (force_close ∷ [], buf, s)
  | some state ↦ elim (parse buffer_reader (begin state buf)) [
    | again q ↦ none
    | aborts ↦ none
    | returns true q ↦ respond cb name q s
    | returns false q ↦ some ([], q.buf, record s { contexts = assign name q.state s.contexts })
  ]
]
