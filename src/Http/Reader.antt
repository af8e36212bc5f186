-- ===== src/Http/Reader.antt =====
-- What the request parser uses of its buffer, with the laws that it relies on; the buffer has them, and
-- so has the plain text of its readable bytes.
use clear_moon.Prelude.{ℕ, ◌≤◌, ◌≡◌, sym, ap, Option, some, arith, Bytes, length, take, drop}
use clear_moon.Buffer.{
  Buffer, search_crlf, find_crlf, peek, retrieve, readable_bytes, read_as_string,
}
use clear_moon.Buffer.Contents.{
  IsValid, contents, peek-contents, peek_all-contents, length-contents, retrieve-contents,
  read_as_string-contents,
}

pub record Reader (B : Type 0) : Type 0 where
  pub find_line : B → Option ℕ
  pub front : ℕ → B → Bytes
  pub skip : ℕ → B → Option B
  pub size : B → ℕ
  pub extract : ℕ → B → Option (Bytes × B)

pub record Reads {B : Type 0} (r : Reader B) (IsGood : B → Type 0) (text : B → Bytes) : Type 0 where
  pub find_line_lem : (b : B) → IsGood b → r.find_line b ≡ search_crlf (text b)
  pub front_lem : (n : ℕ) (b : B) → IsGood b → n ≤ length (text b) → r.front n b ≡ take n (text b)
  pub size_lem : (b : B) → IsGood b → r.size b ≡ length (text b)
  pub skip_lem :
      (n : ℕ) (b : B)
      → IsGood b
      → n ≤ length (text b)
      → (b' : B) × (r.skip n b ≡ some b') × IsGood b' × (text b' ≡ drop n (text b))
  pub extract_lem :
      (n : ℕ) (b : B)
      → IsGood b
      → (b' : B) × (r.extract n b ≡ some (take n (text b), b'))
        × IsGood b'
        × (text b' ≡ drop n (text b))

abbrev pub buffer_reader : Reader Buffer
buffer_reader = record {
  find_line = find_crlf;
  front = peek;
  skip = retrieve;
  size = readable_bytes;
  extract = read_as_string;
}

-- The text itself, as the abstract buffer.
abbrev pub text_reader : Reader Bytes
text_reader = record {
  find_line = search_crlf;
  front = take;
  skip = λ n s. some (drop n s);
  size = length;
  extract = λ n s. some (take n s, drop n s);
}

pub buffer_reader-Reads : Reads buffer_reader IsValid contents
unfolding find_crlf
buffer_reader-Reads = record {
  find_line_lem = λ b v. ap search_crlf (peek_all-contents v);
  front_lem = λ n b v h. peek-contents n v (omega (arith, length-contents v));
  size_lem = λ b v. sym (length-contents v);
  skip_lem = λ n b v h.
      let (b', e, w, c, _) = retrieve-contents n v (omega (arith, length-contents v)) in
      (b', e, w, c);
  extract_lem = λ n b v. let (b', e, w, c, _) = read_as_string-contents n v in (b', e, w, c);
}
