-- ===== src/Buffer/Descriptor.antt =====
-- Reading from a descriptor into the queue, and writing the queue out.
use clear_moon.Prelude.{
  ℕ, ◌+◌, ◌≤◌, ◌<◌, ◌≡◌, refl, ap, ◌∙◌, ◌++◌, some, arith, Bytes, length, take, drop, ltb, inl, inr,
  Bool-cases, length-take, length-drop, take-append-drop, take-all, ltb→lt, append_assoc,
}
use clear_moon.Buffer.Region.{range, copied, copy_to-eq-copied, length-copied, range-copied}
use clear_moon.Buffer.{
  Buffer, max_size, readable_bytes, writeable_bytes, copy_to, done, read_fd, write_fd,
}
use clear_moon.Buffer.Contents.{IsValid, contents, retrieve-contents, append-contents}

-- The vector filled to its end with the first bytes of what was read.
filled :
    {b : Buffer} (got : Bytes)
    → IsValid b
    → writeable_bytes b ≤ length got
    → (w : Bytes) × (copy_to b.write_index (take (writeable_bytes b) got) b.buff ≡ some w)
      × (length w ≡ length b.buff)
      × (range b.read_index (length w) w ≡ contents b ++ take (writeable_bytes b) got)
filled {b} got v h =
    let src : Bytes = take (writeable_bytes b) got in
    let n : length src ≡ writeable_bytes b = omega (arith, length-take (writeable_bytes b) got) in
    let fits : b.write_index + length src ≤ length b.buff = omega arith in
    let l : length (copied b.write_index src b.buff) ≡ length b.buff =
      length-copied b.write_index src b.buff fits in
    (
      copied b.write_index src b.buff,
      copy_to-eq-copied b.write_index src b.buff fits,
      l,
      range-copied b.read_index b.write_index _ src b.buff v.read_le (omega arith) (omega arith),
    )

-- `readFd` puts every byte that the socket gave behind the queue, however they fell on the two pieces
-- of memory, where the vector can hold them; the buffer stays valid.
pub read_fd-contents :
    {b : Buffer} (got : Bytes)
    → IsValid b
    → length b.buff + length got ≤ max_size
    → (b' : Buffer) × (read_fd (done got) b ≡ some b')
      × IsValid b'
      × (contents b' ≡ contents b ++ got)
unfolding read_fd
read_fd-contents {b} got v small = elim (Bool-cases (ltb (length got) (writeable_bytes b))) [
  | inl fits ↦
      let n : length got < writeable_bytes b = ltb→lt _ _ fits in
      let room : b.write_index + length got ≤ length b.buff = omega arith in
      (
        record b {
          write_index = b.write_index + length got;
          buff = copied b.write_index got b.buff;
        },
        ground
            (arith, take-all (writeable_bytes b) got, copy_to-eq-copied b.write_index got b.buff),
        omega (arith, length-copied b.write_index got b.buff room),
        range-copied b.read_index b.write_index (b.write_index + length got) got b.buff v.read_le
            refl room,
      )
  | inr over ↦
      let rest : Bytes = drop (writeable_bytes b) got in
      let (w, e, l, c) = filled got v (ground arith) in
      let full : Buffer = record b { write_index = length w; buff = w } in
      let full_valid : IsValid full = omega arith in
      let (b', f, w', d, _) =
        append-contents rest full_valid (omega (arith, length-drop (writeable_bytes b) got)) in
      (
        b',
        rw (e, over) f,
        w',
        d
            ∙ ap (λ t. t ++ rest) c
            ∙ append_assoc (contents b) (take (writeable_bytes b) got) rest
            ∙ ap (λ t. contents b ++ t) (take-append-drop (writeable_bytes b) got),
      )
]

-- What `WriteFd` does not get rid of stays in the queue, in order.
pub write_fd-contents :
    {b : Buffer} (n : ℕ)
    → IsValid b
    → n ≤ readable_bytes b
    → (b' : Buffer) × (write_fd (done n) b ≡ some b')
      × IsValid b'
      × (take n (contents b) ++ contents b' ≡ contents b)
unfolding write_fd
write_fd-contents {b} n v h =
    let (b', e, w, c, _) = retrieve-contents n v h in
    (b', e, w, ap (λ t. take n (contents b) ++ t) c ∙ take-append-drop n (contents b))
