-- ===== src/Buffer/Queue.antt =====
-- A buffer under any sequence of writes and reads, against a queue of bytes.
use clear_moon.Prelude.{
  ℕ, ◌+◌, ◌≤◌, ◌≡◌, refl, sym, ap, ◌∙◌, List, [], ◌∷◌, ◌++◌, Option, none, some, ◌>>=◌, ◌>>◌,
  assert, arith, Bytes, length, take, drop, true, false, leb, leb→le, Bool-cases, inl, inr,
}
use clear_moon.Buffer.Contents.{
  IsValid, contents, append-contents, read_as_string-contents, retrieve-contents, peek-contents,
  length-contents,
}
use clear_moon.Buffer.{
  Buffer, append, read_as_string, retrieve, read_uint, write_fd, net_to_host, done, failed,
  SysResult, readable_bytes, max_size,
}

-- Calls of `append`, `readAsString`, `retrieve`, `readUint` of some width, and `WriteFd`.
pub data Op : Type 0 where
  put : Bytes → Op
  get skip number : ℕ → Op
  sent : SysResult ℕ → Op

-- What calls return.
pub data Result : Type 0 where
  string : Bytes → Result
  uint : ℕ → Result

-- What the calls return, in order; `none` where one aborts.
unfoldable pub run : Buffer → List Op → Option (List Result)
run b [] = some []
run b (put s ∷ ops) = do b' ← append s b; run b' ops
run b (get n ∷ ops) = do r ← read_as_string n b; rest ← run r.1 ops; some (string (r.0) ∷ rest)
run b (skip n ∷ ops) = do b' ← retrieve n b; run b' ops
run b (number w ∷ ops) = do r ← read_uint w b; rest ← run r.1 ops; some (uint (r.0) ∷ rest)
run b (sent result ∷ ops) = do b' ← write_fd result b; run b' ops

-- The same calls on a queue: more than there is cannot be taken.
unfoldable pub queue_run : Bytes → List Op → Option (List Result)
queue_run q [] = some []
queue_run q (put s ∷ ops) = queue_run (q ++ s) ops
queue_run q (get n ∷ ops) = do rest ← queue_run (drop n q) ops; some (string (take n q) ∷ rest)
queue_run q (skip n ∷ ops) = assert (leb n (length q)) >> queue_run (drop n q) ops
queue_run q (number w ∷ ops) =
    assert (leb w (length q))
    >> (do rest ← queue_run (drop w q) ops; some (uint (net_to_host (take w q)) ∷ rest))
queue_run q (sent (failed e) ∷ ops) = queue_run q ops
queue_run q (sent (done n) ∷ ops) = assert (leb n (length q)) >> queue_run (drop n q) ops

-- How many bytes the calls put.
abbrev pub total : List Op → ℕ
total [] = 0
total (put s ∷ ops) = length s + total ops
total (get n ∷ ops) = total ops
total (skip n ∷ ops) = total ops
total (number w ∷ ops) = total ops
total (sent result ∷ ops) = total ops

-- `retrieve` fails where the queue is too short, and else takes its front.
retrieve-cases :
    {b : Buffer} (n : ℕ)
    → IsValid b
    → (go : Buffer → Option (List Result)) → (q : Bytes → Option (List Result))
    → ((b' : Buffer)
        → IsValid b'
        → b'.write_index ≤ b.write_index
        → contents b' ≡ drop n (contents b)
        → go b' ≡ q (contents b'))
    → (retrieve n b >>= go) ≡ (assert (leb n (length (contents b))) >> q (drop n (contents b)))
unfolding retrieve
retrieve-cases {b} n v go q h = elim (Bool-cases (leb n (readable_bytes b))) [
  | inr e ↦ rw (length-contents v, e) refl
  | inl e ↦
      let (b', f, w, c, less) = retrieve-contents n v (leb→le n (readable_bytes b) e) in
      ap (λ o. o >>= go) f
      ∙ h b' w less c
      ∙ ap q c
      ∙ ap (λ t. assert t >> q (drop n (contents b))) (sym (ap (leb n) (length-contents v) ∙ e))
]

short_uint : (w : ℕ) (b : Buffer) → leb w (readable_bytes b) ≡ false → read_uint w b ≡ none
unfolding read_uint
short_uint w b e = rw e refl

read_uint-contents :
    {b : Buffer} (w : ℕ)
    → IsValid b
    → leb w (readable_bytes b) ≡ true
    → (b' : Buffer) × (read_uint w b ≡ some (net_to_host (take w (contents b)), b'))
      × IsValid b'
      × (contents b' ≡ drop w (contents b))
      × (b'.write_index ≤ b.write_index)
unfolding read_uint
read_uint-contents {b} w v e =
    let le : w ≤ readable_bytes b = leb→le w (readable_bytes b) e in
    let (b', f, u, c, less) = retrieve-contents w v le in
    (b', rw (e, f, peek-contents w v le) refl, u, c, less)

-- No sequence of calls of `append`, `readAsString`, `retrieve`, the reading of numbers and `WriteFd`
-- tells a valid buffer from the queue of its bytes: growing, moving to the front and going back to the
-- start are not seen, what is returned is what the queue gives, and an assert fails where, and only where,
-- more is taken than the queue holds, as long as the vector can hold what is put. (`prepend`, which
-- aborts where there is no room in front, is not among the calls.)
pub run_refines :
    (ops : List Op) {b : Buffer}
    → IsValid b
    → b.write_index + total ops ≤ max_size
    → run b ops ≡ queue_run (contents b) ops
unfolding run queue_run write_fd
run_refines [] v h = refl
run_refines (put s ∷ ops) v h =
    let (b', e, w, c, less) = append-contents s v (omega arith) in
    rw e (run_refines ops w (omega arith) ∙ ap (λ q. queue_run q ops) c)
run_refines (get n ∷ ops) v h =
    let (b', e, w, c, less) = read_as_string-contents n v in
    rw e (rw (run_refines ops w (omega arith), c) refl)
run_refines (skip n ∷ ops) v h =
    retrieve-cases n v (λ b'. run b' ops) (λ q. queue_run q ops)
      (λ b' w less c. run_refines ops w (omega arith))
run_refines (sent (failed e) ∷ ops) v h = run_refines ops v h
run_refines (sent (done n) ∷ ops) v h =
    retrieve-cases n v (λ b'. run b' ops) (λ q. queue_run q ops)
      (λ b' w less c. run_refines ops w (omega arith))
run_refines (number w ∷ ops) {b} v h = elim (Bool-cases (leb w (readable_bytes b))) [
  | inr e ↦ rw (short_uint w b e, length-contents v, e) refl
  | inl e ↦
      let (b', f, u, c, less) = read_uint-contents w v e in
      rw (f, length-contents v, e, run_refines ops u (omega arith), c) refl
]
