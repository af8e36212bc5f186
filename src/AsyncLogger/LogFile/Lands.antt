-- ===== src/AsyncLogger/LogFile/Lands.antt =====
-- The file that bytes go to.
use clear_moon.Prelude.{
  ℕ, suc, ◌≡◌, ◌+◌, Bool, true, false, not, ◌||◌, List, [], ◌∷◌, Option, none, some, Bytes, length,
  take, if◌then◌else◌, refl, sym, ap, ◌∙◌, ◌⊎◌, subst, inl, inr, arith,
}
use clear_moon.OrdMap.{equal, equal_iff}
use clear_moon.AsyncLogger.LogFile.{
  LogFile, Files, make_file_name, opened, is_full, taken, fails, put, roll, open_file, write_on,
  write,
}

-- The file of the day is open.
pub record Settled (today : Bytes) (f : LogFile) : Type 0 where
  pub file_open : f.is_open ≡ true
  pub same_day : f.last_data ≡ today
  pub named : f.current_file_name ≡ make_file_name today f

-- The bytes are in the file of the day; or only the first of them, and the stream has failed; or they are
-- nowhere.
abbrev pub Lands : Bytes → Bytes → LogFile → LogFile → Type 0
Lands today data_ f f' =
    ((f'.outputs ≡ (f'.current_file_name, data_) ∷ f.outputs)
      × (f'.failing ≡ false)
      × Settled today f')
    ⊎ (((n : ℕ) × (f'.outputs ≡ (f'.current_file_name, take n data_) ∷ f.outputs)
          × (f'.failing ≡ true)
          × Settled today f')
        ⊎ ((f'.outputs ≡ f.outputs) × (f'.is_open ≡ false)))

choose-Lands :
    (b : Bool) (today data_ : Bytes) (f g h : LogFile)
    → Lands today data_ f g
    → Lands today data_ f h
    → Lands today data_ f (if b then g else h)
choose-Lands true today data_ f g h a b = a
choose-Lands false today data_ f g h a b = b

-- A file that is open takes what its stream takes; `g` has the same bytes so far.
put-Lands :
    (files : Files) (today data_ : Bytes) (f g : LogFile)
    → g.outputs ≡ f.outputs
    → Settled today g
    → Lands today data_ f (put files data_ g)
put-Lands files today data_ f g e s = by_stream g.failing (files.takes data_)
  where
    settled :
        {os : List (Bytes × Bytes)} {b : Bool} {n : ℕ}
        → Settled today (record g { outputs = os; failing = b; has_written_bytes = n })
    settled = record { file_open = s.file_open; same_day = s.same_day; named = s.named }

    by_stream :
        (b : Bool) (o : Option ℕ)
        → Lands today data_ f (record g {
          outputs = (g.current_file_name, taken b o data_) ∷ g.outputs;
          failing = fails b o;
          has_written_bytes = g.has_written_bytes + length data_;
        })
    by_stream false none = inl (ap (λ l. (g.current_file_name, data_) ∷ l) e, refl, settled)
    by_stream false (some n) =
        inr (inl (n, ap (λ l. (g.current_file_name, take n data_) ∷ l) e, refl, settled))
    by_stream true o = inr (inl (0, ap (λ l. (g.current_file_name, []) ∷ l) e, refl, settled))

roll-Lands :
    (files : Files) (today data_ : Bytes) (f : LogFile)
    → f.last_data ≡ today
    → Lands today data_ f (roll files today data_ f)
roll-Lands files today data_ f d =
    let next : LogFile = record f { is_open = false; sequence = suc f.sequence } in
    let good : LogFile = record next {
      is_open = true;
      failing = false;
      current_file_name = make_file_name today next;
      has_written_bytes = 0;
    } in
    choose-Lands (files.opens (make_file_name today next)) today data_ f (put files data_ good) next
      (put-Lands files today data_ f good refl
        (record { file_open = refl; same_day = d; named = refl }))
      (inr (inr (refl, refl)))

open_file-Lands :
    (files : Files) (today data_ : Bytes) (f : LogFile)
    → f.last_data ≡ today
    → Lands today data_ f (open_file files today data_ f)
open_file-Lands files today data_ f d =
    let o : LogFile = opened files today f in
    choose-Lands (files.opens (make_file_name today f)) today data_ f
      (if is_full data_ o then roll files today data_ o else put files data_ o)
      (record f { is_open = false })
      (choose-Lands (is_full data_ o) today data_ f (roll files today data_ o) (put files data_ o)
        (roll-Lands files today data_ o d)
        (put-Lands files today data_ f o refl
          (record { file_open = refl; same_day = d; named = refl })))
      (inr (inr (refl, refl)))

write_on-Lands :
    (files : Files) (today data_ : Bytes) (f : LogFile)
    → f.last_data ≡ today
    → Lands today data_ f (write_on files today data_ f)
write_on-Lands files today data_ f d =
    by_tests f.is_open (equal f.current_file_name (make_file_name today f)) refl refl
  where
    by_tests :
        (a b : Bool)
        → f.is_open ≡ a
        → equal f.current_file_name (make_file_name today f) ≡ b
        → Lands today data_ f
            (if not a || not b then open_file files today data_ f else put files data_ f)
    by_tests true true e g = put-Lands files today data_ f f refl (record {
      file_open = e;
      same_day = d;
      named = (equal_iff f.current_file_name (make_file_name today f)).0 g;
    })
    by_tests true false e g = open_file-Lands files today data_ f d
    by_tests false b e g = open_file-Lands files today data_ f d

-- Whatever the file system says and in whatever state the file is, behind a `write` one of three holds: its
-- bytes are, behind all that went before, in the file that the day and the number of the file name, which
-- is open and whose stream is good; or that file is open and has only the first of them, perhaps none, and
-- the stream has failed; or they are lost, and no file is open.
pub write-Lands :
    (files : Files) (today data_ : Bytes) (f : LogFile)
    → Lands today data_ f (write files today data_ f)
unfolding write
write-Lands files today data_ f = by_test (equal today f.last_data) refl
  where
    by_test :
        (b : Bool)
        → equal today f.last_data ≡ b
        → Lands today data_ f (
            write_on files today data_ (
              if b then f else record f {
                is_open = false;
                sequence = 0;
                has_written_bytes = 0;
                last_data = today;
              }))
    by_test true e = write_on-Lands files today data_ f (sym ((equal_iff today f.last_data).0 e))
    by_test false e =
        write_on-Lands files today data_
          (record f { is_open = false; sequence = 0; has_written_bytes = 0; last_data = today })
          refl

abbrev pub write_all : Files → Bytes → List Bytes → LogFile → LogFile
write_all files today [] f = f
write_all files today (d ∷ ds) f = write_all files today ds (write files today d f)

abbrev total : List Bytes → ℕ
total [] = 0
total (d ∷ ds) = length d + total ds

write-Settled :
    (files : Files) (today data_ : Bytes) (f : LogFile)
    → Settled today f
    → write files today data_ f ≡ put files data_ f
unfolding write
write-Settled files today data_ f s =
    rw
      (
        (equal_iff today f.last_data).1 (sym s.same_day),
        s.file_open,
        (equal_iff f.current_file_name (make_file_name today f)).1 s.named,
      )
      refl

-- The same file, with the bytes added.
abbrev pub SameFile : LogFile → List Bytes → LogFile → Type 0
SameFile f ds g =
    (g.current_file_name ≡ f.current_file_name)
    × (g.sequence ≡ f.sequence)
    × (g.has_written_bytes ≡ f.has_written_bytes + total ds)

-- While the file of a day is open, it is never changed for the next, however much is written to it: the
-- size at which files are to be changed plays no part.
pub open_file_is_kept :
    (files : Files) (today : Bytes) (ds : List Bytes) (f : LogFile)
    → Settled today f
    → SameFile f ds (write_all files today ds f)
open_file_is_kept files today [] f s = (refl, refl, omega arith)
open_file_is_kept files today (d ∷ ds) f s =
    let (a, b, c) =
      open_file_is_kept files today ds (put files d f)
        (record { file_open = s.file_open; same_day = s.same_day; named = s.named }) in
    subst (λ g. SameFile f (d ∷ ds) (write_all files today ds g))
      (sym (write-Settled files today d f s)) (a, b, c ∙ omega arith)
