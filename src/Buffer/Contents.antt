-- ===== src/Buffer/Contents.antt =====
-- The readable bytes as a queue of bytes: every operation of the buffer against it.
use clear_moon.Prelude.{
  ℕ, ◌+◌, ◌-◌, ◌%◌, ◌^◌, ◌≤◌, ◌<◌, ◌≡◌, refl, sym, ap, ◌∙◌, ◌++◌, some, arith, Bytes, length, take,
  drop, replicate, ltb, inl, inr, Bool-cases, length-append, length-replicate, take-take, drop-all,
  take-all, ltb→lt,
}
use clear_moon.Buffer.Region.{
  range, length-range, copied, copy_to-eq-copied, length-copied, range-copied, range-append,
  range-copied_from, drop-range,
}
use clear_moon.Buffer.{
  Buffer, create, cheap_prepend, max_size, readable_bytes, writeable_bytes, prepend_bytes, peek,
  copy_to, resize, retrieve_all, retrieve, clip, read_as_string, ensure_writeable, append, prepend,
}

-- The indices are in order and inside the vector, and what is written starts behind the header.
pub record IsValid (b : Buffer) : Type 0 where
  pub read_le : b.read_index ≤ b.write_index
  pub write_le : b.write_index ≤ length b.buff
  pub header : cheap_prepend ≤ b.write_index
  pub small : length b.buff ≤ max_size

-- The queue: what a reader will get, in order.
abbrev pub contents : Buffer → Bytes
contents b = range b.read_index b.write_index b.buff

pub readable_bytes-eq : {b : Buffer} → IsValid b → readable_bytes b ≡ b.write_index - b.read_index
readable_bytes-eq v = omega arith

pub writeable_bytes-eq :
    {b : Buffer} → IsValid b → writeable_bytes b ≡ length b.buff - b.write_index
writeable_bytes-eq v = omega arith

pub length-contents : {b : Buffer} → IsValid b → length (contents b) ≡ readable_bytes b
length-contents {b} v = omega (arith, length-range b.read_index b.write_index b.buff)

pub peek-contents :
    {b : Buffer} (n : ℕ) → IsValid b → n ≤ readable_bytes b → peek n b ≡ take n (contents b)
unfolding peek
peek-contents {b} n v h = sym (
    take-take n (b.write_index - b.read_index) (drop b.read_index b.buff)
      (omega (arith, readable_bytes-eq v)))

pub peek_all-contents : {b : Buffer} → IsValid b → peek (readable_bytes b) b ≡ contents b
peek_all-contents {b} v =
    peek-contents (readable_bytes b) v (omega arith)
    ∙ take-all (readable_bytes b) (contents b) (omega (arith, length-contents v))

pub create-IsValid : IsValid create
unfolding create
create-IsValid = omega arith

-- `retrieve` drops bytes at the front, and moves both indices back when none is left.
pub retrieve-contents :
    {b : Buffer} (n : ℕ)
    → IsValid b
    → n ≤ readable_bytes b
    → (b' : Buffer) × (retrieve n b ≡ some b')
      × IsValid b'
      × (contents b' ≡ drop n (contents b))
      × (b'.write_index ≤ b.write_index)
unfolding retrieve
retrieve-contents {b} n v h = elim (Bool-cases (ltb n (readable_bytes b))) [
  | inl part ↦ (
    record b { read_index = b.read_index + n },
    ground (arith, kept (ltb→lt _ _ part)),
    ground (arith, ltb→lt _ _ part),
    sym (drop-range n b.read_index b.write_index b.buff (omega (arith, ltb→lt _ _ part))),
    omega arith,
  )
  | inr all ↦ (
    retrieve_all b,
    ground arith,
    omega arith,
    sym (drop-all n (contents b) (ground (arith, length-contents v))),
    omega arith,
  )
]
  where
    kept : n < readable_bytes b → (b.read_index + n) % 2 ^ 64 ≡ b.read_index + n
    kept p = omega arith

clip-le : (n : ℕ) (b : Buffer) → clip n b ≤ readable_bytes b
clip-le n b = ground arith

take-clip : {b : Buffer} (n : ℕ) → IsValid b → take (clip n b) (contents b) ≡ take n (contents b)
take-clip {b} n v = elim (Bool-cases (ltb (readable_bytes b) n)) [
  | inl over ↦ rw over (
      take-all (readable_bytes b) (contents b) (omega (arith, length-contents v))
      ∙ sym (take-all n (contents b) (omega (arith, length-contents v, ltb→lt _ _ over))))
  | inr fits ↦ rw fits
]

drop-clip : {b : Buffer} (n : ℕ) → IsValid b → drop (clip n b) (contents b) ≡ drop n (contents b)
drop-clip {b} n v = elim (Bool-cases (ltb (readable_bytes b) n)) [
  | inl over ↦ rw over (
      drop-all (readable_bytes b) (contents b) (omega (arith, length-contents v))
      ∙ sym (drop-all n (contents b) (omega (arith, length-contents v, ltb→lt _ _ over))))
  | inr fits ↦ rw fits
]

-- Reading takes the front of the queue, all of it where less is there than was asked for.
pub read_as_string-contents :
    {b : Buffer} (n : ℕ)
    → IsValid b
    → (b' : Buffer) × (read_as_string n b ≡ some (take n (contents b), b'))
      × IsValid b'
      × (contents b' ≡ drop n (contents b))
      × (b'.write_index ≤ b.write_index)
unfolding read_as_string
read_as_string-contents {b} n v =
    let (b', e, v', c, less) = retrieve-contents (clip n b) v (clip-le n b) in
    (
      b',
      ground (arith, e, peek-contents (clip n b) v (clip-le n b), take-clip n v),
      v',
      c ∙ drop-clip n v,
      less,
    )

-- The vector made longer.
grow-contents :
    {b : Buffer} (n : ℕ)
    → IsValid b
    → b.write_index + n ≤ max_size
    → length b.buff < b.write_index + n
    → (v : Bytes) × (resize (b.write_index + n) b.buff ≡ some v)
      × (length v ≡ b.write_index + n)
      × (range b.read_index b.write_index v ≡ contents b)
unfolding resize
grow-contents {b} n v small t = (
  b.buff ++ replicate more 0,
  ground arith,
  omega (arith, length-append b.buff (replicate more 0), length-replicate {A = ℕ} more 0),
  range-append b.read_index b.write_index b.buff _ v.read_le v.write_le,
)
  where
    more : ℕ
    more = b.write_index + n - length b.buff

-- The readable bytes moved to the front.
shift-contents :
    {b : Buffer}
    → IsValid b
    → cheap_prepend ≤ b.read_index
    → (v : Bytes) × (copy_to cheap_prepend (peek (readable_bytes b) b) b.buff ≡ some v)
      × (length v ≡ length b.buff)
      × (range cheap_prepend (cheap_prepend + readable_bytes b) v ≡ contents b)
shift-contents {b} v h = (
  copied cheap_prepend (contents b) b.buff,
  rw (peek_all-contents v) (copy_to-eq-copied cheap_prepend (contents b) b.buff fits),
  length-copied cheap_prepend (contents b) b.buff fits,
  range-copied cheap_prepend cheap_prepend (cheap_prepend + readable_bytes b) (contents b) b.buff
      (omega arith) (omega (arith, length-contents v)) (omega (arith, length-contents v, fits)),
)
  where
    fits : cheap_prepend + length (contents b) ≤ length b.buff
    fits = omega (arith, length-contents v)

-- Room is made without touching the queue: the readable bytes move only towards the front, and only
-- where the vector need not grow.
pub ensure_writeable-contents :
    {b : Buffer} (n : ℕ)
    → IsValid b
    → b.write_index + n ≤ max_size
    → (b' : Buffer) × (ensure_writeable n b ≡ some b')
      × IsValid b'
      × (contents b' ≡ contents b)
      × (b'.write_index + n ≤ length b'.buff)
      × (b'.write_index ≤ b.write_index)
unfolding ensure_writeable
ensure_writeable-contents {b} n v small = elim (Bool-cases (ltb (writeable_bytes b) n)) [
  | inr roomy ↦ (b, ground arith, v, refl, ground arith, omega arith)
  | inl tight ↦ elim (Bool-cases (ltb (writeable_bytes b + prepend_bytes b) (n + cheap_prepend))) [
    | inl full ↦
        let short : length b.buff < b.write_index + n = omega (arith, ltb→lt _ _ tight) in
        let (w, e, l, c) = grow-contents n v small short in
        (record b { buff = w }, ground arith, omega arith, c, omega arith, omega arith)
    | inr free ↦
        let room : n + cheap_prepend ≤ writeable_bytes b + prepend_bytes b = ground arith in
        let short : writeable_bytes b < n = ltb→lt _ _ tight in
        let (w, e, l, c) = shift-contents v (omega arith) in
        (
          record {
            write_index = cheap_prepend + readable_bytes b;
            read_index = cheap_prepend;
            buff = w;
          },
          ground arith,
          omega arith,
          c,
          omega arith,
          omega arith,
        )
  ]
]

-- `append` puts its bytes behind the queue, whatever the room: it fails only where the vector cannot
-- hold them.
pub append-contents :
    {b : Buffer} (src : Bytes)
    → IsValid b
    → b.write_index + length src ≤ max_size
    → (b' : Buffer) × (append src b ≡ some b')
      × IsValid b'
      × (contents b' ≡ contents b ++ src)
      × (b'.write_index ≤ b.write_index + length src)
unfolding append
append-contents {b} src v small =
    let (m, e, w, c, room, less) = ensure_writeable-contents (length src) v small in
    (
      record m { write_index = m.write_index + length src; buff = copied m.write_index src m.buff },
      ground (arith, copy_to-eq-copied m.write_index src m.buff),
      omega (arith, length-copied m.write_index src m.buff room),
      range-copied m.read_index m.write_index (m.write_index + length src) src m.buff w.read_le refl
            room
          ∙ ap (λ t. t ++ src) c,
      omega arith,
    )

-- `prepend` puts its bytes in front of the queue, given that many reserved bytes.
pub prepend-contents :
    {b : Buffer} (src : Bytes)
    → IsValid b
    → length src ≤ b.read_index
    → (b' : Buffer) × (prepend src b ≡ some b') × IsValid b' × (contents b' ≡ src ++ contents b)
unfolding prepend
prepend-contents {b} src v h = (
  record b {
    read_index = b.read_index - length src;
    buff = copied (b.read_index - length src) src b.buff;
  },
  ground (arith, copy_to-eq-copied (b.read_index - length src) src b.buff),
  omega (arith, length-copied (b.read_index - length src) src b.buff),
  range-copied_from (b.read_index - length src) b.write_index src b.buff (omega arith) v.write_le
      ∙ ap (λ t. src ++ range t b.write_index b.buff) (omega arith),
)
