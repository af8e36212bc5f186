-- ===== src/Http/Tests.antt =====
-- The parser, the responses and the server at concrete messages.
use clear_moon.Prelude.{
  ◌+◌, ◌≤◌, ◌≡◌, refl, ◌≢◌, true, false, [], ◌∷◌, ◌++◌, none, some, arith, Bytes, codes, length,
  flatten, leb→le,
}
use clear_moon.OrdMap.{find, bytes_key}
use clear_moon.StdString.{
  stoul, decimal, decimal_loop, find_char, rfind_char, skip_blanks, digits_value, signed_value,
  skip_spaces, unsigned_value,
}
use clear_moon.StdString.Decimal.{stoul-decimal}
use clear_moon.Buffer.{Buffer, max_size, search_crlf, find_crlf, peek, retrieve, retrieve_all}
use clear_moon.Buffer.Contents.{IsValid, contents}
use clear_moon.Http.Request.{
  put, http11, fresh, invalid, string_to_method, method_to_string,
  string_to_method-method_to_string,
}
use clear_moon.Http.Response.{HttpResponse, with_length, append_to_buffer}
use clear_moon.Http.Response.Wire.{
  message, head, status_line, header_lines, append_to_buffer-contents,
}
use clear_moon.Http.Reader.{buffer_reader}
use clear_moon.Http.Context.{
  Parser, ParseState, expect_request_line, expect_headers, got_all, returns, rounds, step, step_in,
  with_line, on_request_line, on_header_line, on_body, read_body, parse_request_line, parse_header,
  parse, parse_text,
}
use clear_moon.Http.Context.Refine.{view, view_outcome, IsGoodOutcome, parse_refines}
use clear_moon.Http.Context.Progress.{Ends, parse-Ends}
use clear_moon.Http.Context.Extend.{extend}
use clear_moon.Http.Context.Pieces.{feed, feed-eq-parse_text}
use clear_moon.Http.Server.{HttpServer, HttpCallback, begin, on_message}
use clear_moon.Http.Server.Reply.{Fits, answer, answered, on_message_answers}
use clear_moon.Http.Server.Split.{AnswersNothing, split_request_is_lost}

abbrev holding : Bytes → Buffer
holding s = record {
  write_index = 8 + length s;
  read_index = 8;
  buff = 0 ∷ 0 ∷ 0 ∷ 0 ∷ 0 ∷ 0 ∷ 0 ∷ 0 ∷ s;
}

abbrev whole : Bytes
whole = codes "PUT /a?k HTTP/1.1\r\nContent-Length: 2\r\n\r\nokGET"

abbrev partial : Bytes
partial = codes "PUT /a?k HTTP/1.1\r\nContent-"

abbrev later : Bytes
later = codes "Length: 2\r\n\r\nok"

abbrev server : HttpServer
server = record { contexts = (codes "one", expect_request_line) ∷ [] }

abbrev echo : HttpCallback
echo req resp = (record resp { body = req.body }, [])

abbrev answer_two : HttpResponse
answer_two = record ((begin expect_headers (holding [])).response) { body = codes "hi" }

abbrev start : ParseState → Bytes → Parser Bytes
start state s = view contents (begin state (holding s))

abbrev got_whole : Parser Bytes
got_whole = record (start got_all (codes "GET")) {
  request = record fresh {
    method = put;
    path = codes "/a";
    query = codes "k";
    version = http11;
    headers = (codes "Content-Length", codes "2") ∷ [];
    body = codes "ok";
  };
}

abbrev got_partial : Parser Bytes
got_partial = record (start expect_headers (codes "Content-")) {
  request = record fresh { method = put; path = codes "/a"; query = codes "k"; version = http11 };
}

whole-IsValid : IsValid (holding whole)
whole-IsValid = record {
  read_le = leb→le _ _ refl;
  write_le = leb→le _ _ refl;
  header = leb→le _ _ refl;
  small = leb→le _ _ refl;
}

partial-IsValid : IsValid (holding partial)
partial-IsValid = record {
  read_le = leb→le _ _ refl;
  write_le = leb→le _ _ refl;
  header = leb→le _ _ refl;
  small = leb→le _ _ refl;
}

later-IsValid : IsValid (holding later)
later-IsValid = record {
  read_le = leb→le _ _ refl;
  write_le = leb→le _ _ refl;
  header = leb→le _ _ refl;
  small = leb→le _ _ refl;
}

-- The whole request is got, and what stands behind it is left.
whole_is_got : parse_text (start expect_request_line whole) ≡ returns true got_whole
unfolding begin parse rounds step step_in with_line on_request_line on_header_line on_body read_body
    parse_request_line parse_header search_crlf find_char rfind_char skip_blanks stoul
    string_to_method digits_value signed_value skip_spaces unsigned_value
whole_is_got = refl

partial_waits : parse_text (start expect_request_line partial) ≡ returns false got_partial
unfolding begin parse rounds step step_in with_line on_request_line on_header_line on_body read_body
    parse_request_line parse_header search_crlf find_char rfind_char skip_blanks stoul
    string_to_method digits_value signed_value skip_spaces unsigned_value
partial_waits = refl

nothing_waits :
    parse_text (start expect_request_line []) ≡ returns false (start expect_request_line [])
unfolding begin parse rounds step step_in with_line search_crlf
nothing_waits = refl

abbrev lost : Parser Buffer
lost = record (begin got_all (holding [])) {
  buf = record (holding later) { read_index = 21 };
  request = record fresh { headers = (codes "Length", codes "2") ∷ [] };
}

later_is_lost : parse buffer_reader (begin expect_headers (holding later)) ≡ returns true lost
unfolding begin parse rounds step step_in with_line on_header_line on_body read_body parse_header
    search_crlf find_crlf find_char skip_blanks peek retrieve retrieve_all
later_is_lost = refl

put_is_known : put ≢ invalid
put_is_known e = cc

put_is_read : string_to_method (codes "PUT") ≢ invalid
unfolding string_to_method
put_is_read e = cc

no_length : find (codes "Content-Length") answer_two.headers ≡ none
unfolding begin
no_length = refl

no_encoding : find (codes "Transfer-Encoding") answer_two.headers ≡ none
unfolding begin
no_encoding = refl

empty-IsValid : IsValid (holding [])
empty-IsValid = omega arith

answer_fits : (holding []).write_index + length (message (with_length answer_two)) ≤ max_size
unfolding message with_length begin decimal decimal_loop status_line header_lines
answer_fits = leb→le _ _ refl

server_knows : find (codes "one") server.contexts ≡ some expect_request_line
server_knows = refl

echo-Fits : Fits (answer (some echo) got_whole).0
unfolding message with_length begin decimal decimal_loop head status_line header_lines
echo-Fits = (leb→le _ _ refl, leb→le _ _ refl)

parse_refines_example :
    (view_outcome contents (parse buffer_reader (begin expect_request_line (holding whole)))
      ≡ parse_text (start expect_request_line whole))
    × IsGoodOutcome IsValid (parse buffer_reader (begin expect_request_line (holding whole)))
unfolding begin
parse_refines_example = parse_refines (begin expect_request_line (holding whole)) whole-IsValid

parse-Ends_example : Ends (parse_text (start expect_request_line whole))
parse-Ends_example = parse-Ends (start expect_request_line whole)

feed-eq-parse_text_example :
    feed (partial ∷ later ∷ []) (start expect_request_line [])
    ≡ parse_text (extend (flatten (partial ∷ later ∷ [])) (start expect_request_line []))
feed-eq-parse_text_example =
    feed-eq-parse_text (partial ∷ later ∷ []) (start expect_request_line []) nothing_waits

string_to_method-method_to_string_example : string_to_method (method_to_string put) ≡ put
string_to_method-method_to_string_example = string_to_method-method_to_string put put_is_known

append_to_buffer-contents_example :
    (b' : Buffer) × (append_to_buffer answer_two (holding []) ≡ some (with_length answer_two, b'))
    × IsValid b'
    × (contents b' ≡ contents (holding []) ++ message (with_length answer_two))
append_to_buffer-contents_example =
    append_to_buffer-contents answer_two (holding []) empty-IsValid answer_fits

on_message_answers_example :
    (b' : Buffer) × IsValid b'
    × (contents b' ≡ codes "GET")
    × (on_message (some echo) (codes "one") (holding whole) server
        ≡ some (answered (some echo) (codes "one") server b' got_whole))
unfolding begin
on_message_answers_example =
    on_message_answers (some echo) (codes "one") (holding whole) server expect_request_line
      got_whole whole-IsValid server_knows whole_is_got echo-Fits

-- The connection has sent a part of a request.
abbrev server_in_between : HttpServer
server_in_between = record { contexts = (codes "one", expect_headers) ∷ [] }

headers_are_not_first : expect_headers ≢ expect_request_line
headers_are_not_first e = cc

split_request_is_lost_example :
    AnswersNothing
      (some echo)
      (codes "one")
      server_in_between
      (on_message (some echo) (codes "one") (holding later) server_in_between)
split_request_is_lost_example =
    split_request_is_lost (some echo) (codes "one") (holding later) server_in_between expect_headers
      later-IsValid refl headers_are_not_first

stoul-decimal_example : stoul (decimal 2026) ≡ some 2026
stoul-decimal_example = stoul-decimal 2026 (omega arith)
