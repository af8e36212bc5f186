-- ===== src/Http/Request.antt =====
-- net/Http/HttpRequest.h, and the method names of net/Http/HttpContext.h.
use clear_moon.Prelude.{
  ◌≡◌, refl, sym, ◌∙◌, Bool-cases, ◌≢◌, inl, inr, [], none, some, Bytes, codes, if◌then◌else◌,
}
use clear_moon.OrdMap.{OrdMap, find, assign, equal, equal_iff, bytes_key}

pub data HttpMethod : Type 0 where
  invalid get post head put delete options patch : HttpMethod

pub data HttpVersion : Type 0 where
  unknown http10 http11 : HttpVersion

pub record HttpRequest : Type 0 where
  pub method : HttpMethod
  pub path : Bytes
  pub query : Bytes
  pub version : HttpVersion
  pub body : Bytes
  pub headers : OrdMap Bytes Bytes

-- A new request; `reset` goes back to it.
abbrev pub fresh : HttpRequest
fresh = record {
  method = invalid;
  path = [];
  query = [];
  version = unknown;
  body = [];
  headers = [];
}

abbrev pub reset : HttpRequest → HttpRequest
reset r = record r {
  method = invalid;
  path = [];
  query = [];
  version = unknown;
  body = [];
  headers = [];
}

abbrev pub set_header : Bytes → Bytes → HttpRequest → HttpRequest
set_header key value r = record r { headers = assign key value r.headers }

abbrev pub get_header : Bytes → HttpRequest → Bytes
get_header key r = elim (find key r.headers) [ none ↦ [] | some v ↦ v ]

unfoldable pub method_to_string : HttpMethod → Bytes
method_to_string get = codes "GET"
method_to_string post = codes "POST"
method_to_string head = codes "HEAD"
method_to_string put = codes "PUT"
method_to_string delete = codes "DELETE"
method_to_string options = codes "OPTIONS"
method_to_string patch = codes "PATCH"
method_to_string invalid = codes "INVALID"

unfoldable pub string_to_method : Bytes → HttpMethod
string_to_method s =
    if equal s (codes "GET")
    then get
    else if equal s (codes "POST")
    then post
    else if equal s (codes "HEAD")
    then head
    else if equal s (codes "PUT")
    then put
    else if equal s (codes "DELETE")
    then delete
    else if equal s (codes "OPTIONS")
    then options
    else if equal s (codes "PATCH")
    then patch
    else invalid

-- The parser knows every method by the name that it prints, except the invalid one.
pub string_to_method-method_to_string :
    (m : HttpMethod) → m ≢ invalid → string_to_method (method_to_string m) ≡ m
unfolding string_to_method method_to_string
string_to_method-method_to_string invalid h = absurd (h refl)
string_to_method-method_to_string _ h = refl

-- One name of the ladder.
ladder :
    (s name : Bytes) (m rest : HttpMethod)
    → method_to_string m ≡ name
    → (rest ≢ invalid → method_to_string rest ≡ s)
    → (if equal s name then m else rest) ≢ invalid
    → method_to_string (if equal s name then m else rest) ≡ s
ladder s name m rest e k h = elim (Bool-cases (equal s name)) [
  | inl same ↦ rw same (e ∙ sym ((equal_iff s name).0 same))
  | inr other ↦ rw other (k (rw other at h))
]

-- Where `stringToMethod` knows a method, `methodToString` gives the very name back: each method has one
-- name only.
pub method_to_string-string_to_method :
    (s : Bytes) → string_to_method s ≢ invalid → method_to_string (string_to_method s) ≡ s
unfolding string_to_method method_to_string
method_to_string-string_to_method s = ladder s _ get _ refl (
    ladder s _ post _ refl (
      ladder s _ head _ refl (
        ladder s _ put _ refl (
          ladder s _ delete _ refl
            (ladder s _ options _ refl (ladder s _ patch invalid refl (λ h. absurd (h refl))))))))
