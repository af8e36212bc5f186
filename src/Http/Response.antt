-- ===== src/Http/Response.antt =====
-- net/Http/HttpResponse.h.
pub mod Wire
use clear_moon.Prelude.{
  ℕ, ◌≡◌, Bool, true, false, List, [], ◌∷◌, ◌++◌, Option, none, some, ◌>>=◌, Bytes, codes, length,
  ◌&&◌, if◌then◌else◌,
}
use clear_moon.OrdMap.{OrdMap, find, assign, bytes_key}
use clear_moon.StdString.{decimal}
use clear_moon.Buffer.{Buffer, append}

pub data HttpStatusCode : Type 0 where
  unknown ok moved_permanently found bad_request forbidden not_found method_not_allowed :
      HttpStatusCode
  request_timeout payload_too_large uri_too_long internal_server_error : HttpStatusCode
  not_implemented bad_gateway service_unavailable : HttpStatusCode

abbrev pub to_number : HttpStatusCode → ℕ
to_number unknown = 0
to_number ok = 200
to_number moved_permanently = 301
to_number found = 302
to_number bad_request = 400
to_number forbidden = 403
to_number not_found = 404
to_number method_not_allowed = 405
to_number request_timeout = 408
to_number payload_too_large = 413
to_number uri_too_long = 414
to_number internal_server_error = 500
to_number not_implemented = 501
to_number bad_gateway = 502
to_number service_unavailable = 503

abbrev pub status_code_to_string : HttpStatusCode → Bytes
status_code_to_string ok = codes "OK"
status_code_to_string moved_permanently = codes "Moved Permanently"
status_code_to_string found = codes "Found"
status_code_to_string bad_request = codes "Bad Request"
status_code_to_string forbidden = codes "Forbidden"
status_code_to_string not_found = codes "Not Found"
status_code_to_string method_not_allowed = codes "Method Not Allowed"
status_code_to_string request_timeout = codes "Request Timeout"
status_code_to_string payload_too_large = codes "Payload Too Large"
status_code_to_string uri_too_long = codes "URI Too Long"
status_code_to_string internal_server_error = codes "Internal Server Error"
status_code_to_string not_implemented = codes "Not Implemented"
status_code_to_string bad_gateway = codes "Bad Gateway"
status_code_to_string service_unavailable = codes "Service Unavailable"
status_code_to_string unknown = codes "Unknown"

pub record HttpResponse : Type 0 where
  pub status : HttpStatusCode
  pub body : Bytes
  pub headers : OrdMap Bytes Bytes
  pub close_connection : Bool
  pub file_mode : Bool
  pub file_path : Bytes
  pub file_size : ℕ

-- A new response; `reset` goes back to it.
abbrev pub fresh : HttpResponse
fresh = record {
  status = unknown;
  body = [];
  headers = [];
  close_connection = false;
  file_mode = false;
  file_path = [];
  file_size = 0;
}

abbrev pub reset : HttpResponse → HttpResponse
reset r = record r {
  status = unknown;
  body = [];
  headers = [];
  close_connection = false;
  file_mode = false;
  file_path = [];
  file_size = 0;
}

abbrev pub set_header : Bytes → Bytes → HttpResponse → HttpResponse
set_header key value r = record r { headers = assign key value r.headers }

abbrev pub get_header : Bytes → HttpResponse → Bytes
get_header key r = elim (find key r.headers) [ none ↦ [] | some v ↦ v ]

abbrev pub set_content_type : Bytes → HttpResponse → HttpResponse
set_content_type v = set_header (codes "Content-Type") v

-- `stat` gives the size of the file, or fails.
unfoldable pub set_file_path : Option ℕ → Bytes → Bytes → HttpResponse → Bool × HttpResponse
set_file_path none path content_type r = (false, r)
set_file_path (some size) path content_type r = (
  true,
  set_header (codes "Accept-Ranges") (codes "bytes") (
      set_header (codes "Content-Length") (decimal size) (
        set_header (codes "Content-Type") content_type
          (record r { file_mode = true; file_path = path; file_size = size }))),
)

-- The status line, piece by piece.
unfoldable pub append_status : HttpResponse → Buffer → Option Buffer
append_status r out = do
  out ← append (codes "HTTP/1.1 " ++ (decimal (to_number r.status) ++ codes " ")) out
  out ← append (status_code_to_string r.status) out
  append (codes "\r\n") out

unfoldable pub append_headers : OrdMap Bytes Bytes → Buffer → Option Buffer
append_headers [] out = some out
append_headers ((key, value) ∷ rest) out = do
  out ← append key out
  out ← append (codes ": ") out
  out ← append value out
  out ← append (codes "\r\n") out
  append_headers rest out

unfoldable pub serialize_headers : HttpResponse → Buffer → Option Buffer
serialize_headers r out = do
  out ← append_status r out
  out ← append_headers r.headers out
  append (codes "\r\n") out

abbrev is_absent : Bytes → HttpResponse → Bool
is_absent key r = elim (find key r.headers) [ none ↦ true | some v ↦ false ]

-- Without a length and a transfer coding the length of the body becomes a header, in the response too.
unfoldable pub with_length : HttpResponse → HttpResponse
with_length r =
    if is_absent (codes "Content-Length") r && is_absent (codes "Transfer-Encoding") r
    then set_header (codes "Content-Length") (decimal (length r.body)) r
    else r

-- The headers, the empty line and the body.
unfoldable pub append_content : HttpResponse → Buffer → Option Buffer
append_content r out = do
  out ← append_headers r.headers out
  out ← append (codes "\r\n") out
  append r.body out

-- The response comes back too, since its headers may have changed.
unfoldable pub append_to_buffer : HttpResponse → Buffer → Option (HttpResponse × Buffer)
append_to_buffer r out = do
  out ← append_status r out
  out ← append_content (with_length r) out
  some (with_length r, out)
