-- ===== src/AsyncLogger/Moves.antt =====
-- What the thread behind does with its buffers keeps what is logged in order.
use clear_moon.Prelude.{
  ◌≡◌, true, false, List, [], ◌∷◌, ◌++◌, map, Option, none, some, refl, sym, ap, ◌∙◌, subst,
  append_assoc, append-nil,
}
use clear_moon.Buffer.{Buffer, retrieve_all}
use clear_moon.Buffer.Contents.{IsValid, contents, peek_all-contents}
use clear_moon.AsyncLogger.{
  Back, unborn, testing, locked, pushed, replaced, swapped, ended, writing, AsyncLogger, is_empty,
  refill, push, replace, exchange, refill_next, is_outside, write_one, pop_back, recycle_a,
  recycle_b, recycle,
}
use clear_moon.AsyncLogger.Fresh.{
  Fresh, FreshIf, All, joined, joined-append, joined-Fresh, All-append, All-forget, retrieve-Fresh,
}
use clear_moon.AsyncLogger.Kept.{KeptAt, left_to_write, is_writing, HasFresh}

-- The steps of the thread under the lock together.
abbrev swap : Buffer → AsyncLogger → AsyncLogger
swap c l = refill_next (exchange (replace (push c l)))

-- Under the lock, what has come of a logger in order.
abbrev pub InvAt : Back → AsyncLogger → Type 0
InvAt pushed l = (c : Buffer) × (m : AsyncLogger) × KeptAt locked c m × (l ≡ push c m)
InvAt replaced l = (c : Buffer) × (m : AsyncLogger) × KeptAt locked c m × (l ≡ replace (push c m))
InvAt swapped l =
    (c : Buffer) × (m : AsyncLogger) × KeptAt locked c m × (l ≡ exchange (replace (push c m)))
InvAt unborn l = (c : Buffer) × KeptAt unborn c l
InvAt testing l = (c : Buffer) × KeptAt testing c l
InvAt locked l = (c : Buffer) × KeptAt locked c l
InvAt ended l = (c : Buffer) × KeptAt ended c l
InvAt (writing bs) l = (c : Buffer) × KeptAt (writing bs) c l

abbrev pub Inv : AsyncLogger → Type 0
Inv l = InvAt l.back l

abbrev pub InvOf : Option AsyncLogger → Type 0
InvOf none = Unit
InvOf (some l) = Inv l

-- Outside of the lock it is in order.
pub from_inv :
    (p : Back) (l : AsyncLogger) → is_outside p ≡ true → InvAt p l → (c : Buffer) × KeptAt p c l
from_inv unborn l o i = i
from_inv testing l o i = i
from_inv locked l o i = i
from_inv ended l o i = i
from_inv (writing bs) l o i = i
from_inv pushed l o i = absurd (cc)
from_inv replaced l o i = absurd (cc)
from_inv swapped l o i = absurd (cc)

pub to_inv :
    (p : Back) (l : AsyncLogger) → is_outside p ≡ true → (c : Buffer) × KeptAt p c l → InvAt p l
to_inv unborn l o i = i
to_inv testing l o i = i
to_inv locked l o i = i
to_inv ended l o i = i
to_inv (writing bs) l o i = i
to_inv pushed l o i = absurd (cc)
to_inv replaced l o i = absurd (cc)
to_inv swapped l o i = absurd (cc)

-- Where nothing is left to write, the thread may go elsewhere.
pub moves-Kept :
    (p q : Back) (c : Buffer) (l : AsyncLogger)
    → left_to_write p ≡ []
    → left_to_write q ≡ []
    → (is_writing q ≡ false → is_writing p ≡ false)
    → (is_writing q ≡ true → l.buff_a ≡ none → is_empty l.buffers_to_write ≡ false)
    → KeptAt p c l
    → KeptAt q c (record l { back = q })
moves-Kept p q c l e f w n k = record {
  in_order =
      ap (λ x. l.written ++ (joined x ++ (joined l.buffers ++ contents c))) (f ∙ sym e)
      ∙ k.in_order;
  current = k.current;
  current_valid = k.current_valid;
  front_valid = k.front_valid;
  rest_valid = subst (All IsValid) (sym f) tt;
  back_valid = k.back_valid;
  spare = k.spare;
  used = λ u. k.used (w u);
  some_left = n;
}

refill-Fresh :
    (n b : Option Buffer)
    → FreshIf n
    → FreshIf b
    → FreshIf ((refill n b).0) × FreshIf ((refill n b).1)
refill-Fresh none b f g = (g, tt)
refill-Fresh (some n) b f g = (f, g)

not_empty : (l : List Buffer) (c : Buffer) → is_empty (l ++ (c ∷ [])) ≡ false
not_empty [] c = refl
not_empty (b ∷ l) c = refl

pub swap-Inv : (c : Buffer) (l : AsyncLogger) → KeptAt locked c l → Inv (swap c l)
swap-Inv c l k = has l.buff_a refl (k.used refl).1
  where
    fill : FreshIf ((refill l.next_buffer l.buff_b).0) × FreshIf ((refill l.next_buffer l.buff_b).1)
    fill = refill-Fresh l.next_buffer l.buff_b k.spare.0 k.spare.2

    has : (o : Option Buffer) → l.buff_a ≡ o → HasFresh o → Inv (swap c l)
    has none e f = absurd f
    has (some a) e f = (
      a,
      record {
        in_order =
            ap (λ x. l.written ++ (x ++ (joined l.buffers_to_write ++ contents a)))
              (joined-append l.buffers (c ∷ []))
            ∙ rw (joined-Fresh l.buffers_to_write (k.used refl).0, f.nothing)
                (ap (λ x. l.written ++ x)
                  (append-nil _ ∙ ap (λ x. joined l.buffers ++ x) (append-nil (contents c))))
            ∙ k.in_order;
        current = e;
        current_valid = f.valid;
        front_valid = k.back_valid;
        rest_valid = All-append IsValid l.buffers (c ∷ []) k.front_valid (k.current_valid, tt);
        back_valid = All-append IsValid l.buffers (c ∷ []) k.front_valid (k.current_valid, tt);
        spare = (fill.0, tt, fill.1);
        used = λ u. cc;
        some_left = λ u v. not_empty l.buffers c;
      },
    )

pub write_one-Kept :
    (b : Buffer) (rest : List Buffer) (c : Buffer) (l : AsyncLogger)
    → KeptAt (writing (b ∷ rest)) c l
    → Inv (write_one b rest l)
write_one-Kept b rest c l k = (
  c,
  record {
    in_order =
        ap (λ x. (l.written ++ x) ++ (joined rest ++ (joined l.buffers ++ contents c)))
          (peek_all-contents (k.rest_valid).0)
        ∙ append_assoc l.written (contents b) (joined rest ++ (joined l.buffers ++ contents c))
        ∙ ap (λ x. l.written ++ x)
            (sym (append_assoc (contents b) (joined rest) (joined l.buffers ++ contents c)))
        ∙ k.in_order;
    current = k.current;
    current_valid = k.current_valid;
    front_valid = k.front_valid;
    rest_valid = (k.rest_valid).1;
    back_valid = k.back_valid;
    spare = k.spare;
    used = λ u. cc;
    some_left = k.some_left;
  },
)

pop_back-Fresh :
    (l : List Buffer)
    → All Fresh l
    → is_empty l ≡ false
    → (b : Buffer) × (m : List Buffer) × (pop_back l ≡ some (b, m)) × Fresh b × All Fresh m
pop_back-Fresh [] f e = absurd cc
pop_back-Fresh (b ∷ []) (f, g) e = (b, [], refl, f, tt)
pop_back-Fresh (b ∷ (d ∷ l)) (f, g) e =
    let (x, m, h, i, j) = pop_back-Fresh (d ∷ l) g refl in (x, b ∷ m, rw h refl, i, (f, j))

recycle_a-Fresh :
    (o : Option Buffer) (l : List Buffer)
    → FreshIf o
    → All Fresh l
    → (o ≡ none → is_empty l ≡ false)
    → (a : Buffer) × (m : List Buffer) × (recycle_a o l ≡ some (some a, m)) × Fresh a × All Fresh m
recycle_a-Fresh (some a) l f g e = (a, l, refl, f, g)
recycle_a-Fresh none l f g e =
    let (a, m, h, i, j) = pop_back-Fresh l g (e refl) in (a, m, rw h refl, i, j)

recycle_b-Fresh :
    (o : Option Buffer) (l : List Buffer)
    → FreshIf o
    → All Fresh l
    → (b : Option Buffer) × (m : List Buffer) × (recycle_b o l ≡ some (b, m))
      × FreshIf b
      × All Fresh m
recycle_b-Fresh (some b) l f g = (some b, l, refl, f, g)
recycle_b-Fresh none [] f g = (none, [], refl, tt, tt)
recycle_b-Fresh none (x ∷ l) f g =
    let (b, m, h, i, j) = pop_back-Fresh (x ∷ l) g refl in (some b, m, rw h refl, i, j)

not_empty-map : (l : List Buffer) → is_empty (map retrieve_all l) ≡ is_empty l
not_empty-map [] = refl
not_empty-map (b ∷ l) = refl

abbrev GivesInv : Option AsyncLogger → Type 0
GivesInv o = (m : AsyncLogger) × (o ≡ some m) × Inv m

pub recycle-Kept : (c : Buffer) (l : AsyncLogger) → KeptAt (writing []) c l → GivesInv (recycle l)
recycle-Kept c l k =
    let fr : All Fresh (map retrieve_all l.buffers_to_write) =
      retrieve-Fresh l.buffers_to_write k.back_valid in
    let (a, m, e, f, g) =
      recycle_a-Fresh l.buff_a (map retrieve_all l.buffers_to_write) k.spare.1 fr
        (λ n. not_empty-map l.buffers_to_write ∙ k.some_left refl n) in
    let (b, n, h, i, j) = recycle_b-Fresh l.buff_b m k.spare.2 g in
    (
      record l { buff_a = some a; buff_b = b; buffers_to_write = n; back = testing },
      rw e (rw h refl),
      (
        c,
        record {
          in_order = k.in_order;
          current = k.current;
          current_valid = k.current_valid;
          front_valid = k.front_valid;
          rest_valid = tt;
          back_valid = All-forget n j;
          spare = (k.spare.0, f, i);
          used = λ _. (j, f);
          some_left = λ u. cc;
        },
      ),
    )
