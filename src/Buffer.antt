-- ===== src/Buffer.antt =====
-- net/Buffer.h, net/Buffer.cc and the byte orders of net/Endian.h: the buffer in front of every
-- socket. `none` is an abort (a failed `assert`, or `length_error` of the vector) or an access
-- outside the vector; `reserve` changes nothing that the code reads.
pub mod Region
pub mod Contents
pub mod Descriptor
pub mod Search
pub mod Numbers
pub mod Queue
mod Tests
use clear_moon.Prelude.{
  ℕ, zero, suc, ◌+◌, ◌-◌, ◌*◌, ◌/◌, ◌%◌, ◌^◌, Bool, List, [], ◌∷◌, ◌++◌, Option, none, some, ◌>>=◌,
  ◌>>◌, assert, Bytes, length, take, drop, replicate, ltb, leb, ◌==◌, if◌then◌else◌, ◌&&◌,
}

pub record Buffer : Type 0 where
  pub write_index : ℕ
  pub read_index : ℕ
  pub buff : Bytes

abbrev pub cheap_prepend : ℕ
cheap_prepend = 8

-- `max_size()` of a `vector<char>`: resizing past it throws.
abbrev pub max_size : ℕ
max_size = 2 ^ 63 - 1

-- `size_t` subtraction wraps.
abbrev pub sub_size : ℕ → ℕ → ℕ
sub_size a b = (a + 2 ^ 64 - b) % 2 ^ 64

-- A length returned as an `int`: its 32-bit pattern.
abbrev pub to_int : ℕ → ℕ
to_int n = n % 2 ^ 32

unfoldable pub create : Buffer
create = record {
  write_index = cheap_prepend;
  read_index = cheap_prepend;
  buff = replicate cheap_prepend 0;
}

abbrev pub readable_bytes : Buffer → ℕ
readable_bytes b = sub_size b.write_index b.read_index

abbrev pub writeable_bytes : Buffer → ℕ
writeable_bytes b = sub_size (length b.buff) b.write_index

abbrev pub prepend_bytes : Buffer → ℕ
prepend_bytes b = b.read_index

-- The bytes `[peek(), peek() + n)`.
unfoldable pub peek : ℕ → Buffer → Bytes
peek n b = take n (drop b.read_index b.buff)

-- `std::copy` of `src` to `begin() + at`.
unfoldable pub copy_to : ℕ → Bytes → Bytes → Option Bytes
copy_to at src dst = do
  assert (leb (at + length src) (length dst))
  some (take at dst ++ (src ++ drop (at + length src) dst))

-- `vector::resize`, new bytes being 0.
unfoldable pub resize : ℕ → Bytes → Option Bytes
resize n v = do
  assert (leb n max_size)
  some (if leb n (length v) then take n v else v ++ replicate (n - length v) 0)

unfoldable pub retrieve_all : Buffer → Buffer
retrieve_all b = record b { write_index = cheap_prepend; read_index = cheap_prepend }

unfoldable pub retrieve : ℕ → Buffer → Option Buffer
unfolding retrieve_all
retrieve n b = do
  assert (leb n (readable_bytes b))
  some (
      if ltb n (readable_bytes b)
      then record b { read_index = (b.read_index + n) % 2 ^ 64 }
      else retrieve_all b)

unfoldable pub retrieve_until : ℕ → Buffer → Option Buffer
retrieve_until n b = do
  assert (leb b.read_index n)
  assert (ltb n b.write_index)
  retrieve (sub_size n b.read_index) b

-- What is read is at most what is there.
abbrev pub clip : ℕ → Buffer → ℕ
clip n b = if ltb (readable_bytes b) n then readable_bytes b else n

unfoldable pub read_as_string : ℕ → Buffer → Option (Bytes × Buffer)
read_as_string n b = do b' ← retrieve (clip n b) b; some (peek (clip n b) b, b')

abbrev pub read_all_as_string : Buffer → Option (Bytes × Buffer)
read_all_as_string b = read_as_string (readable_bytes b) b

-- What is copied to `dst`, the returned count, and the buffer.
unfoldable pub read : ℕ → Buffer → Option (Bytes × ℕ × Buffer)
read n b = do b' ← retrieve (clip n b) b; some (peek (clip n b) b, to_int (clip n b), b')

-- `netToHost` of the bytes that `memcpy` fetched: most significant first.
unfoldable pub net_to_host : Bytes → ℕ
net_to_host [] = 0
net_to_host (x ∷ xs) = x * 2 ^ (8 * length xs) + net_to_host xs

-- `hostToNet` of a `w`-byte number, as bytes in memory.
unfoldable pub host_to_net : ℕ → ℕ → Bytes
host_to_net zero x = []
host_to_net (suc w) x = x / 2 ^ (8 * w) % 256 ∷ host_to_net w x

-- `readUint64`, `readUint32`, `readUint16` and `readUint8` at `w` = 8, 4, 2 and 1.
unfoldable pub read_uint : ℕ → Buffer → Option (ℕ × Buffer)
read_uint w b = do
  assert (leb w (readable_bytes b))
  b' ← retrieve w b
  some (net_to_host (peek w b), b')

-- `std::search` for CR LF: the offset of the first.
unfoldable pub search_crlf : Bytes → Option ℕ
search_crlf [] = none
search_crlf (x ∷ []) = none
search_crlf (x ∷ y ∷ xs) =
    let rest = search_crlf (y ∷ xs) in
    if (x == b'\r') && (y == b'\n')
    then some 0
    else elim rest [ none ↦ none | some i ↦ some (suc i) ]

-- Its result as an offset from `peek()`.
unfoldable pub find_crlf : Buffer → Option ℕ
find_crlf b = search_crlf (peek (readable_bytes b) b)

-- Writing.
abbrev pub has_written : ℕ → Buffer → Buffer
has_written n b = record b { write_index = (b.write_index + n) % 2 ^ 64 }

-- Moves the readable bytes to the front, or makes the vector longer.
unfoldable pub ensure_writeable : ℕ → Buffer → Option Buffer
ensure_writeable n b = do
  b' ←
      if ltb (writeable_bytes b) n
      then if ltb ((writeable_bytes b + prepend_bytes b) % 2 ^ 64) ((n + cheap_prepend) % 2 ^ 64)
        then (do v ← resize ((b.write_index + n) % 2 ^ 64) b.buff; some (record b { buff = v }))
        else (do
          v ← copy_to cheap_prepend (peek (readable_bytes b) b) b.buff
          some (record {
            write_index = cheap_prepend + readable_bytes b;
            read_index = cheap_prepend;
            buff = v;
          }))
      else some b
  assert (leb n (writeable_bytes b'))
  some b'

unfoldable pub append : Bytes → Buffer → Option Buffer
append src b = do
  b' ← ensure_writeable (length src) b
  v ← copy_to b'.write_index src b'.buff
  some (has_written (length src) (record b' { buff = v }))

-- `write` is `append`, and returns the length.
unfoldable pub write : Bytes → Buffer → Option (ℕ × Buffer)
write src b = do b' ← append src b; some (to_int (length src), b')

unfoldable pub prepend : Bytes → Buffer → Option Buffer
prepend src b = do
  assert (leb (length src) (prepend_bytes b))
  v ← copy_to (b.read_index - length src) src b.buff
  some (record b { read_index = b.read_index - length src; buff = v })

-- `prependInt64` to `prependInt8`.
abbrev pub prepend_int : ℕ → ℕ → Buffer → Option Buffer
prepend_int w x b = prepend (host_to_net w x) b

-- What a system call on a descriptor gives: an `errno`, or what it moved.
pub data SysResult (A : Type 0) : Type 0 where
  failed : ℕ → SysResult A
  done : A → SysResult A

-- The bytes that `readv` took from the socket: the first go behind the write index, the rest to
-- `extraData`.
unfoldable pub read_fd : SysResult Bytes → Buffer → Option Buffer
read_fd (failed e) b = some b
read_fd (done got) b = do
  let room = writeable_bytes b
  v ← copy_to b.write_index (take room got) b.buff
  if ltb (length got) room
      then some (has_written (length got) (record b { buff = v }))
      else append (drop room got) (record b { write_index = length v; buff = v })

-- `write` of the readable bytes, of which the kernel took `n`.
unfoldable pub write_fd : SysResult ℕ → Buffer → Option Buffer
write_fd (failed e) b = some b
write_fd (done n) b = retrieve n b
