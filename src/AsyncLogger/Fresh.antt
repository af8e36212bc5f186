-- ===== src/AsyncLogger/Fresh.antt =====
-- Buffers with nothing in them, and the bytes of buffers.
use clear_moon.Prelude.{
  ◌≡◌, List, [], ◌∷◌, ◌++◌, map, Option, none, some, Bytes, refl, sym, ap, ◌∙◌, append_assoc, arith,
}
use clear_moon.Buffer.{
  Buffer, max_size, cheap_prepend, writeable_bytes, readable_bytes, peek, retrieve_all,
}
use clear_moon.Buffer
use clear_moon.Buffer.Contents.{IsValid, contents, create-IsValid}

-- A buffer with nothing in it.
pub record Fresh (b : Buffer) : Type 0 where
  pub valid : IsValid b
  pub nothing : contents b ≡ []
  pub in_front : b.write_index ≡ cheap_prepend

pub create-Fresh : Fresh Buffer.create
unfolding Buffer.create
create-Fresh = record { valid = create-IsValid; nothing = refl; in_front = refl }

retrieve_all-Fresh : (b : Buffer) → IsValid b → Fresh (retrieve_all b)
unfolding retrieve_all
retrieve_all-Fresh b v = record {
  valid = record {
    read_le = omega arith;
    write_le = omega (arith, v.header, v.write_le);
    header = omega arith;
    small = v.small;
  };
  nothing = refl;
  in_front = refl;
}

abbrev pub FreshIf : Option Buffer → Type 0
FreshIf none = Unit
FreshIf (some b) = Fresh b

abbrev pub All : (Buffer → Type 0) → List Buffer → Type 0
All P [] = Unit
All P (b ∷ l) = P b × All P l

-- The bytes of buffers, in order.
abbrev pub joined : List Buffer → Bytes
joined [] = []
joined (b ∷ l) = contents b ++ joined l

pub joined-append : (l m : List Buffer) → joined (l ++ m) ≡ joined l ++ joined m
joined-append [] m = refl
joined-append (b ∷ l) m =
    ap (λ x. contents b ++ x) (joined-append l m)
    ∙ sym (append_assoc (contents b) (joined l) (joined m))

pub joined-Fresh : (l : List Buffer) → All Fresh l → joined l ≡ []
joined-Fresh [] f = refl
joined-Fresh (b ∷ l) (f, g) = rw (f.nothing, joined-Fresh l g) refl

pub All-append : (P : Buffer → Type 0) (l m : List Buffer) → All P l → All P m → All P (l ++ m)
All-append P [] m a b = b
All-append P (x ∷ l) m (p, a) b = (p, All-append P l m a b)

pub All-forget : (l : List Buffer) → All Fresh l → All IsValid l
All-forget [] f = tt
All-forget (b ∷ l) (f, g) = (f.valid, All-forget l g)

pub retrieve-Fresh : (l : List Buffer) → All IsValid l → All Fresh (map retrieve_all l)
retrieve-Fresh [] v = tt
retrieve-Fresh (b ∷ l) (v, w) = (retrieve_all-Fresh b v, retrieve-Fresh l w)
