-- ===== src/AsyncLogger/Kept.antt =====
-- What holds of the buffers, and `append` keeps it.
use clear_moon.Prelude.{
  ◌≡◌, ◌≤◌, ◌+◌, Bool, true, false, List, [], ◌∷◌, ◌++◌, Option, none, some, Bytes, length, ltb,
  if◌then◌else◌, refl, sym, ap, ◌∙◌, append_assoc, append-nil, arith, ltb→lt,
}
use clear_moon.Buffer.{
  Buffer, max_size, cheap_prepend, writeable_bytes, readable_bytes, peek, retrieve_all,
}
use clear_moon.Buffer
use clear_moon.Buffer.Contents.{IsValid, contents, append-contents, writeable_bytes-eq}
use clear_moon.AsyncLogger.{Back, writing, AsyncLogger, or_new, append_to, append, is_empty}
use clear_moon.AsyncLogger.Fresh.{
  Fresh, create-Fresh, FreshIf, All, joined, joined-append, All-append,
}

-- What the thread behind has yet to write.
abbrev pub left_to_write : Back → List Buffer
left_to_write (writing l) = l
left_to_write _ = []

abbrev pub is_writing : Back → Bool
is_writing (writing l) = true
is_writing _ = false

abbrev pub HasFresh : Option Buffer → Type 0
HasFresh none = ⊥
HasFresh (some b) = Fresh b

-- At a step of the thread, with the buffer that the front end fills.
pub record KeptAt (p : Back) (c : Buffer) (l : AsyncLogger) : Type 0 where
  pub in_order :
      l.written ++ (joined (left_to_write p) ++ (joined l.buffers ++ contents c)) ≡ l.appended
  pub current : l.current_buffer ≡ some c
  pub current_valid : IsValid c
  pub front_valid : All IsValid l.buffers
  pub rest_valid : All IsValid (left_to_write p)
  pub back_valid : All IsValid l.buffers_to_write
  pub spare : FreshIf l.next_buffer × FreshIf l.buff_a × FreshIf l.buff_b
  pub used : is_writing p ≡ false → All Fresh l.buffers_to_write × HasFresh l.buff_a
  pub some_left : is_writing p ≡ true → l.buff_a ≡ none → is_empty l.buffers_to_write ≡ false

abbrev pub Kept : AsyncLogger → Type 0
Kept l = (c : Buffer) × KeptAt l.back c l

append-Gives :
    (data_ : Bytes) (c : Buffer)
    → IsValid c
    → ltb (length data_) (writeable_bytes c) ≡ true
    → (c' : Buffer) × (Buffer.append data_ c ≡ some c')
      × IsValid c'
      × (contents c' ≡ contents c ++ data_)
append-Gives data_ c v h =
    let (c', e, w, d, less) =
      append-contents data_ v
        (omega (arith, ltb→lt _ _ h, writeable_bytes-eq v, v.write_le, v.small)) in
    (c', e, w, d)

append_fresh-Gives :
    (data_ : Bytes) (c : Buffer)
    → Fresh c
    → cheap_prepend + length data_ ≤ max_size
    → (c' : Buffer) × (Buffer.append data_ c ≡ some c') × IsValid c' × (contents c' ≡ data_)
append_fresh-Gives data_ c f h =
    let (c', e, w, d, less) = append-contents data_ f.valid (omega (arith, f.in_front, h)) in
    (c', e, w, d ∙ ap (λ x. x ++ data_) f.nothing)

or_new-Fresh : (o : Option Buffer) → FreshIf o → Fresh (or_new o)
or_new-Fresh none f = create-Fresh
or_new-Fresh (some b) f = f

-- New bytes at the end.
behind_all :
    (w r b c d c' : Bytes) → c' ≡ c ++ d → w ++ (r ++ (b ++ c')) ≡ (w ++ (r ++ (b ++ c))) ++ d
behind_all w r b c d c' e =
    ap (λ x. w ++ (r ++ (b ++ x))) e
    ∙ ap (λ x. w ++ (r ++ x)) (sym (append_assoc b c d))
    ∙ ap (λ x. w ++ x) (sym (append_assoc r (b ++ c) d))
    ∙ sym (append_assoc w (r ++ (b ++ c)) d)

-- The front end has a buffer with more in it.
fills-KeptAt :
    (p : Back) (c c' : Buffer) (data_ : Bytes) (l : AsyncLogger)
    → IsValid c'
    → contents c' ≡ contents c ++ data_
    → KeptAt p c l
    → KeptAt p c' (record l { current_buffer = some c'; appended = l.appended ++ data_ })
fills-KeptAt p c c' data_ l v e k = record {
  in_order =
      behind_all l.written (joined (left_to_write p)) (joined l.buffers) (contents c) data_
        (contents c') e
      ∙ ap (λ x. x ++ data_) k.in_order;
  current = refl;
  current_valid = v;
  front_valid = k.front_valid;
  rest_valid = k.rest_valid;
  back_valid = k.back_valid;
  spare = k.spare;
  used = k.used;
  some_left = k.some_left;
}

-- Its buffer is full, and goes to the others.
sets_aside-KeptAt :
    (p : Back) (c f : Buffer) (l : AsyncLogger)
    → Fresh f
    → KeptAt p c l
    → KeptAt p f
        (record l { current_buffer = some f; buffers = l.buffers ++ (c ∷ []); next_buffer = none })
sets_aside-KeptAt p c f l g k = record {
  in_order =
      ap (λ x. l.written ++ (joined (left_to_write p) ++ x))
        (ap (λ x. x ++ contents f) (joined-append l.buffers (c ∷ []))
          ∙ rw g.nothing (append-nil _)
          ∙ ap (λ x. joined l.buffers ++ x) (append-nil (contents c)))
      ∙ k.in_order;
  current = refl;
  current_valid = g.valid;
  front_valid = All-append IsValid l.buffers (c ∷ []) k.front_valid (k.current_valid, tt);
  rest_valid = k.rest_valid;
  back_valid = k.back_valid;
  spare = (tt, k.spare.1, k.spare.2);
  used = k.used;
  some_left = k.some_left;
}

abbrev pub Gives : Option AsyncLogger → Type 0
Gives o = (m : AsyncLogger) × (o ≡ some m) × Kept m

pub append-Kept :
    (data_ : Bytes) (l : AsyncLogger)
    → cheap_prepend + length data_ ≤ max_size
    → Kept l
    → Gives (append data_ l)
unfolding append
append-Kept data_ l h (c, k) = rw k.current (by_test (ltb (length data_) (writeable_bytes c)) refl)
  where
    f : Buffer
    f = or_new l.next_buffer

    m : AsyncLogger
    m = record l { buffers = l.buffers ++ (c ∷ []); next_buffer = none }

    by_test :
        (b : Bool)
        → ltb (length data_) (writeable_bytes c) ≡ b
        → Gives (if b then append_to data_ c l else append_to data_ f m)
    by_test true e =
        let (c', g, v, d) = append-Gives data_ c k.current_valid e in
        (
          record l { current_buffer = some c'; appended = l.appended ++ data_ },
          rw g refl,
          (c', fills-KeptAt l.back c c' data_ l v d k),
        )
    by_test false e =
        let fr : Fresh f = or_new-Fresh l.next_buffer (k.spare.0) in
        let (c', g, v, d) = append_fresh-Gives data_ f fr h in
        let n : AsyncLogger = record m { current_buffer = some f } in
        (
          record m { current_buffer = some c'; appended = l.appended ++ data_ },
          rw g refl,
          (
            c',
            fills-KeptAt l.back f c' data_ n v (d ∙ ap (λ x. x ++ data_) (sym fr.nothing))
                (sets_aside-KeptAt l.back c f l fr k),
          ),
        )
