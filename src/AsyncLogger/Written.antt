-- ===== src/AsyncLogger/Written.antt =====
-- What is logged is written, in order, where no `append` comes between the lines under the lock.
use clear_moon.Prelude.{
  ◌≡◌, ◌≤◌, ◌+◌, Bool, true, false, [], ◌∷◌, ◌++◌, Option, none, some, ◌>>=◌, Bytes, length, ltb,
  if◌then◌else◌, refl, sym, ap, ◌∙◌, subst, >>=-eq-some,
}
use clear_moon.Buffer.{
  Buffer, max_size, cheap_prepend, writeable_bytes, readable_bytes, peek, retrieve_all,
}
use clear_moon.Buffer
use clear_moon.Buffer.Contents.{contents, create-IsValid}
use clear_moon.AsyncLogger.{
  Back, unborn, testing, locked, pushed, replaced, swapped, ended, writing, AsyncLogger, create,
  start, stop, or_new, append_to, append, is_outside, back_step, Logs, begins, appends, stops,
  steps,
}
use clear_moon.AsyncLogger.Fresh.{create-Fresh, joined}
use clear_moon.AsyncLogger.Kept.{KeptAt, left_to_write, Kept, append-Kept}
use clear_moon.AsyncLogger.Moves.{InvAt, Inv, InvOf, from_inv, to_inv}
use clear_moon.AsyncLogger.Turns.{back_step_in-Inv}

start-Inv : Inv (start create)
unfolding start create Buffer.create
start-Inv = (
  Buffer.create,
  record {
    in_order = refl;
    current = refl;
    current_valid = create-IsValid;
    front_valid = tt;
    rest_valid = tt;
    back_valid = tt;
    spare = (create-Fresh, create-Fresh, create-Fresh);
    used = λ _. (tt, create-Fresh);
    some_left = λ u. cc;
  },
)

some_inj : {a b : AsyncLogger} → some a ≡ some b → a ≡ b
some_inj e = cc

stop-KeptAt : (p : Back) (c : Buffer) (l : AsyncLogger) → KeptAt p c l → KeptAt p c (stop l)
stop-KeptAt p c l k = record {
  in_order = k.in_order;
  current = k.current;
  current_valid = k.current_valid;
  front_valid = k.front_valid;
  rest_valid = k.rest_valid;
  back_valid = k.back_valid;
  spare = k.spare;
  used = k.used;
  some_left = k.some_left;
}

stop-Inv : (p : Back) (l : AsyncLogger) → InvAt p l → InvAt p (stop l)
stop-Inv unborn l (c, k) = (c, stop-KeptAt unborn c l k)
stop-Inv testing l (c, k) = (c, stop-KeptAt testing c l k)
stop-Inv locked l (c, k) = (c, stop-KeptAt locked c l k)
stop-Inv ended l (c, k) = (c, stop-KeptAt ended c l k)
stop-Inv (writing bs) l (c, k) = (c, stop-KeptAt (writing bs) c l k)
stop-Inv pushed l (c, m, k, e) = (c, stop m, stop-KeptAt locked c m k, ap stop e)
stop-Inv replaced l (c, m, k, e) = (c, stop m, stop-KeptAt locked c m k, ap stop e)
stop-Inv swapped l (c, m, k, e) = (c, stop m, stop-KeptAt locked c m k, ap stop e)

append_to-back :
    (data_ : Bytes) (c : Buffer) (l : AsyncLogger) {m : AsyncLogger}
    → append_to data_ c l ≡ some m
    → m.back ≡ l.back
append_to-back data_ c l e =
    let (c', f, g) =
      >>=-eq-some (Buffer.append data_ c)
        (λ c'. some (record l { current_buffer = some c'; appended = l.appended ++ data_ })) e in
    ap (λ x. x.back) (sym (some_inj g))

append-back :
    (data_ : Bytes) (l : AsyncLogger) {m : AsyncLogger} → append data_ l ≡ some m → m.back ≡ l.back
unfolding append
append-back data_ l {m} e = by_current l.current_buffer e
  where
    by_test :
        (b : Bool) (c : Buffer)
        → (if b
            then append_to data_ c l
            else append_to data_
                (or_new l.next_buffer)
                (record l { buffers = l.buffers ++ (c ∷ []); next_buffer = none }))
          ≡ some m
        → m.back ≡ l.back
    by_test true c e = append_to-back data_ c l e
    by_test false c e =
        append_to-back data_ (or_new l.next_buffer)
          (record l { buffers = l.buffers ++ (c ∷ []); next_buffer = none }) e

    by_current :
        (o : Option Buffer)
        → (o >>= λ c.
            if ltb (length data_) (writeable_bytes c)
            then append_to data_ c l
            else append_to data_
                (or_new l.next_buffer)
                (record l { buffers = l.buffers ++ (c ∷ []); next_buffer = none }))
          ≡ some m
        → m.back ≡ l.back
    by_current none e = cc
    by_current (some c) e = by_test (ltb (length data_) (writeable_bytes c)) c e

Logs-Inv : {l : AsyncLogger} → Logs (start create) l → Inv l
unfolding back_step
Logs-Inv begins = start-Inv
Logs-Inv (appends {l} {m} data_ r o h e) =
    let (n, g, k) = append-Kept data_ l h (from_inv l.back l o (Logs-Inv r)) in
    to_inv m.back m (ap is_outside (append-back data_ l e) ∙ o)
      (subst Kept (some_inj (sym g ∙ e)) k)
Logs-Inv (stops {l} r) = stop-Inv l.back l (Logs-Inv r)
Logs-Inv (steps {l} r e) = subst InvOf e (back_step_in-Inv l.back l refl (Logs-Inv r))

-- However the calls of `append`, that of `stop` and the thread behind take turns, if no two calls of
-- `append` overlap and none comes while the thread is among the lines under the lock, to which the code,
-- whose `append` takes no lock, does not see: wherever the thread is outside of those lines, what was
-- written, what it has yet to write, and what is in the buffers of the front end, in this order, are the
-- bytes that were appended, none lost, twice or out of turn; and the next line that fits a buffer is taken.
pub written_in_order :
    {l : AsyncLogger}
    → Logs (start create) l
    → is_outside l.back ≡ true
    → ((c : Buffer) × (l.current_buffer ≡ some c)
        × (l.written ++ (joined (left_to_write l.back) ++ (joined l.buffers ++ contents c))
            ≡ l.appended))
      × ((data_ : Bytes)
          → cheap_prepend + length data_ ≤ max_size
          → (m : AsyncLogger) × (append data_ l ≡ some m))
written_in_order {l} r o =
    let (c, k) = from_inv l.back l o (Logs-Inv r) in
    ((c, k.current, k.in_order), λ data_ h. let (m, e, n) = append-Kept data_ l h (c, k) in (m, e))

-- An `append` that comes between the first two of those lines uses a buffer that is not there.
pub append_inside_fails :
    (data_ : Bytes) {l : AsyncLogger}
    → Logs (start create) l
    → l.back ≡ pushed
    → append data_ l ≡ none
unfolding append
append_inside_fails data_ {l} r e =
    let (c, m, k, g) = subst (λ p. InvAt p l) e (Logs-Inv r) in ap (append data_) g
