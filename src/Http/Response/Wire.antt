-- ===== src/Http/Response/Wire.antt =====
-- What a response puts on the wire.
use clear_moon.Prelude.{
  ◌+◌, ◌^◌, ◌≤◌, ◌<◌, ◌≡◌, refl, sym, ap, ◌∙◌, [], ◌∷◌, ◌++◌, Option, none, some, ◌>>=◌, arith,
  Bytes, codes, length, length-append, append_assoc, append-nil,
}
use clear_moon.OrdMap.{OrdMap, find, bytes_key, find-assign, equal_iff}
use clear_moon.StdString.{decimal, stoul}
use clear_moon.StdString.Decimal.{stoul-decimal}
use clear_moon.Buffer.{Buffer, append, max_size}
use clear_moon.Buffer.Contents.{IsValid, contents, append-contents}
use clear_moon.Http.Response.{
  HttpResponse, to_number, status_code_to_string, append_status, append_headers, append_content,
  serialize_headers, with_length, append_to_buffer, get_header, set_header,
}

-- A step that puts `s` behind the queue of any buffer with room for it.
abbrev Appends : Bytes → (Buffer → Option Buffer) → Type 0
Appends s k =
    (b : Buffer)
    → IsValid b
    → b.write_index + length s ≤ max_size
    → (b' : Buffer) × (k b ≡ some b')
      × IsValid b'
      × (contents b' ≡ contents b ++ s)
      × (b'.write_index ≤ b.write_index + length s)

append-Appends : (s : Bytes) → Appends s (append s)
append-Appends s b v h = append-contents s v h

Appends-then :
    (s t : Bytes) (k l : Buffer → Option Buffer)
    → Appends s k
    → Appends t l
    → Appends (s ++ t) (λ b. k b >>= l)
Appends-then s t k l hk hl b v h =
    let n : length (s ++ t) ≡ length s + length t = length-append s t in
    let (m, e, w, c, less) = hk b v (omega arith) in
    let (b', f, w', d, less') = hl m w (omega arith) in
    (b', rw e f, w', d ∙ ap (λ q. q ++ t) c ∙ append_assoc (contents b) s t, omega arith)

unfoldable pub status_line : HttpResponse → Bytes
status_line r =
    (codes "HTTP/1.1 " ++ (decimal (to_number r.status) ++ codes " "))
    ++ (status_code_to_string r.status ++ codes "\r\n")

unfoldable pub header_lines : OrdMap Bytes Bytes → Bytes
header_lines [] = []
header_lines ((key, value) ∷ rest) =
    key ++ (codes ": " ++ (value ++ (codes "\r\n" ++ header_lines rest)))

append_status-Appends : (r : HttpResponse) → Appends (status_line r) (append_status r)
unfolding append_status status_line
append_status-Appends r =
    Appends-then _ _ _ _ (append-Appends _)
      (Appends-then _ _ _ _ (append-Appends _) (append-Appends _))

append_nothing : Appends [] (λ b. some b)
append_nothing b v h = (b, refl, v, sym (append-nil (contents b)), omega arith)

append_headers-Appends : (m : OrdMap Bytes Bytes) → Appends (header_lines m) (append_headers m)
unfolding append_headers header_lines
append_headers-Appends [] = append_nothing
append_headers-Appends ((key, value) ∷ rest) =
    Appends-then key _ (append key) _ (append-Appends key) (
      Appends-then (codes ": ") _ (append (codes ": ")) _ (append-Appends _) (
        Appends-then value _ (append value) _ (append-Appends value) (
          Appends-then (codes "\r\n") _ (append (codes "\r\n")) _ (append-Appends _)
            (append_headers-Appends rest))))

-- The head of a message: the status line, the headers in order, and an empty line.
unfoldable pub head : HttpResponse → Bytes
head r = status_line r ++ (header_lines r.headers ++ codes "\r\n")

-- `serializeHeaders` writes the head and nothing else, behind what the buffer holds.
pub serialize_headers-contents :
    (r : HttpResponse) (b : Buffer)
    → IsValid b
    → b.write_index + length (head r) ≤ max_size
    → (b' : Buffer) × (serialize_headers r b ≡ some b')
      × IsValid b'
      × (contents b' ≡ contents b ++ head r)
      × (b'.write_index ≤ b.write_index + length (head r))
unfolding serialize_headers head
serialize_headers-contents r =
    Appends-then _ _ _ _ (append_status-Appends r)
      (Appends-then _ _ _ _ (append_headers-Appends r.headers) (append-Appends _))

append_content-Appends :
    (r : HttpResponse)
    → Appends (header_lines r.headers ++ (codes "\r\n" ++ r.body)) (append_content r)
unfolding append_content
append_content-Appends r =
    Appends-then _ _ (append_headers r.headers) _ (append_headers-Appends r.headers) (
      Appends-then (codes "\r\n") _ (append (codes "\r\n")) _ (append-Appends _)
        (append-Appends r.body))

-- Filling in the length changes nothing but the headers.
with_length_keeps :
    (r : HttpResponse)
    → (status_line (with_length r) ≡ status_line r) × ((with_length r).body ≡ r.body)
unfolding with_length status_line
with_length_keeps r = ground arith

-- A whole message.
unfoldable pub message : HttpResponse → Bytes
message r = status_line r ++ (header_lines r.headers ++ (codes "\r\n" ++ r.body))

message-with_length :
    (r : HttpResponse)
    → status_line r
        ++ (header_lines (with_length r).headers ++ (codes "\r\n" ++ (with_length r).body))
      ≡ message (with_length r)
unfolding message
message-with_length r = rw (with_length_keeps r).0

-- `appendToBuffer` writes the message of the response with its length filled in, behind what a valid
-- buffer with room for it holds, and nothing else.
pub append_to_buffer-contents :
    (r : HttpResponse) (b : Buffer)
    → IsValid b
    → b.write_index + length (message (with_length r)) ≤ max_size
    → (b' : Buffer) × (append_to_buffer r b ≡ some (with_length r, b'))
      × IsValid b'
      × (contents b' ≡ contents b ++ message (with_length r))
unfolding append_to_buffer
append_to_buffer-contents r b v h =
    let (b', e, w, c, _) =
      Appends-then _ _ _ _ (append_status-Appends r) (append_content-Appends (with_length r)) b v
        (rw (message-with_length r) h) in
    (b', ground (arith, e), w, rw (← message-with_length r) c)

with_length_absent :
    (r : HttpResponse)
    → find (codes "Content-Length") r.headers ≡ none
    → find (codes "Transfer-Encoding") r.headers ≡ none
    → with_length r ≡ set_header (codes "Content-Length") (decimal (length r.body)) r
unfolding with_length
with_length_absent r e f = ground arith

get_header-set_header_self : (r : HttpResponse) (k v : Bytes) → get_header k (set_header k v r) ≡ v
get_header-set_header_self r k v = ground (arith, find-assign k k v r.headers, equal_iff k k)

-- Where a response has neither a length nor an encoding in its headers and its body is shorter than
-- 2 ^ 64, the length that is filled in, read as a number, is that of the body.
pub content_length-with_length :
    (r : HttpResponse)
    → find (codes "Content-Length") r.headers ≡ none
    → find (codes "Transfer-Encoding") r.headers ≡ none
    → length r.body < 2 ^ 64
    → stoul (get_header (codes "Content-Length") (with_length r)) ≡ some (length r.body)
content_length-with_length r e f h = rw (with_length_absent r e f) (
    ap stoul (get_header-set_header_self r (codes "Content-Length") (decimal (length r.body)))
    ∙ stoul-decimal (length r.body) h)
