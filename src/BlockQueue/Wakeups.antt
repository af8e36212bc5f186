-- ===== src/BlockQueue/Wakeups.antt =====
-- Any threads, in any order: no wake-up is lost, and tasks are taken in the order in which they were
-- given.
use clear_moon.Prelude.{
  ℕ, suc, ◌≤◌, ◌<◌, ◌^◌, ◌≡◌, refl, sym, ap, ◌∙◌, Bool, true, false, not, ◌&&◌, List, [], ◌∷◌, ◌++◌,
  arith, length, leb, ltb, ◌==◌, length-append, append_assoc, append-nil, if◌then◌else◌,
}
use clear_moon.BlockQueue.{
  BlockQueue, Got, Gave, create, notify_full, notify_empty, is_empty, one_below, take_from,
  get_task, add_task, set_max_size, stop, taken_by, given_by,
}

choose :
    {X : Type 0} (P : X → Type 0) (b : Bool) {x y : X}
    → (b ≡ true → P x)
    → (b ≡ false → P y)
    → P (if b then x else y)
choose P true f g = f refl
choose P false f g = g refl

-- A full queue that loses one task and does not notify is still full.
still_full : (m n : ℕ) → m ≤ suc n → m < 2 ^ 64 → (n == one_below m) ≡ false → m ≤ n
still_full m n h k b = ground arith

not_both : {A : Type 0} (l : List A) → is_empty l ≡ false → length l ≡ 0 → ⊥
not_both [] h k = cc
not_both (x ∷ rest) h k = omega arith

module _ {A : Type 0} where
  -- Threads that come and go, from a queue for `n` tasks: the tasks that were given and those that were
  -- taken, and the queue that is left.
  pub data Run (n : ℕ) : List A → List A → BlockQueue A → Type 0 where
    begins : Run n [] [] (create n)
    gets :
        {g t : List A} {q : BlockQueue A}
        → Run n g t q
        → Run n g (t ++ taken_by (get_task q).0) (get_task q).1
    gets_again :
        {g t : List A} {q : BlockQueue A} (k : ℕ)
        → q.takers ≡ suc k
        → Run n g t q
        → Run n g
            (t ++ taken_by (get_task (record q { takers = k })).0)
            (get_task (record q { takers = k })).1
    adds :
        {g t : List A} {q : BlockQueue A} (x : A)
        → Run n g t q
        → Run n (g ++ given_by (add_task x q).0 x) t (add_task x q).1
    adds_again :
        {g t : List A} {q : BlockQueue A} (k : ℕ) (x : A)
        → q.givers ≡ suc k
        → Run n g t q
        → Run n
            (g ++ given_by (add_task x (record q { givers = k })).0 x)
            t
            (add_task x (record q { givers = k })).1
    resizes :
        {g t : List A} {q : BlockQueue A} (m : ℕ)
        → m < 2 ^ 64
        → Run n g t q
        → Run n g t (set_max_size m q)
    stops : {g t : List A} {q : BlockQueue A} → Run n g t q → Run n g t (stop q)

  -- Who sleeps has a reason to.
  pub record Awake (q : BlockQueue A) : Type 0 where
    pub sized : q.max_size < 2 ^ 64
    pub takers_wait : 0 < q.takers → (length q.task_queue ≡ 0) × (q.stopped ≡ false)
    pub givers_wait : 0 < q.givers → (q.max_size ≤ length q.task_queue) × (q.stopped ≡ false)

  abbrev Good : List A → List A → BlockQueue A → Type 0
  Good g t q = Awake q × (t ++ q.task_queue ≡ g)

  notify_full-Good :
      (g t : List A) (b : Bool) (q : BlockQueue A)
      → q.max_size < 2 ^ 64
      → (0 < q.takers → (length q.task_queue ≡ 0) × (q.stopped ≡ false))
      → (b ≡ false → 0 < q.givers → (q.max_size ≤ length q.task_queue) × (q.stopped ≡ false))
      → t ++ q.task_queue ≡ g
      → Good g t (notify_full b q)
  notify_full-Good g t true q m k f e =
      (record { sized = m; takers_wait = k; givers_wait = λ h. absurd (omega arith) }, e)
  notify_full-Good g t false q m k f e =
      (record { sized = m; takers_wait = k; givers_wait = f refl }, e)

  take_from-Good :
      (g t l : List A) (q : BlockQueue A)
      → q.task_queue ≡ l
      → Good g t q
      → Good g (t ++ taken_by (take_from l q).0) (take_from l q).1
  take_from-Good g t [] q e (w, f) =
      choose (λ (r : Got A × BlockQueue A). Good g (t ++ taken_by r.0) (r.1)) q.stopped
        (λ s. (w, nothing_taken))
        (λ s. (
          record {
            sized = w.sized;
            takers_wait = λ h. (ap length e, s);
            givers_wait = w.givers_wait;
          },
          nothing_taken,
        ))
    where
      nothing_taken : (t ++ []) ++ q.task_queue ≡ g
      nothing_taken = ap (λ x. x ++ q.task_queue) (append-nil t) ∙ f
  take_from-Good g t (x ∷ rest) q e (w, f) =
      let n : length q.task_queue ≡ suc (length rest) = ap length e in
      notify_full-Good g (t ++ (x ∷ [])) (length rest == one_below q.max_size)
        (record q { task_queue = rest }) w.sized (λ h. absurd (ground (arith, w.takers_wait h)))
        (λ b h.
          let (le, s) = w.givers_wait h in
          (still_full q.max_size (length rest) (omega arith) w.sized b, s))
        (append_assoc t (x ∷ []) rest ∙ ap (λ y. t ++ y) (sym e) ∙ f)

  get_task-Good :
      (g t : List A) (q : BlockQueue A)
      → Good g t q
      → Good g (t ++ taken_by (get_task q).0) (get_task q).1
  unfolding get_task
  get_task-Good g t q h = take_from-Good g t q.task_queue q refl h

  notify_empty-Good :
      (g t : List A) (b : Bool) (q : BlockQueue A)
      → q.max_size < 2 ^ 64
      → (b ≡ false → 0 < q.takers → (length q.task_queue ≡ 0) × (q.stopped ≡ false))
      → (0 < q.givers → (q.max_size ≤ length q.task_queue) × (q.stopped ≡ false))
      → t ++ q.task_queue ≡ g
      → Good g t (notify_empty b q)
  notify_empty-Good g t true q m f k e =
      (record { sized = m; takers_wait = λ h. absurd (omega arith); givers_wait = k }, e)
  notify_empty-Good g t false q m f k e =
      (record { sized = m; takers_wait = f refl; givers_wait = k }, e)

  add_task-Good :
      (g t : List A) (x : A) (q : BlockQueue A)
      → Good g t q
      → Good (g ++ given_by (add_task x q).0 x) t (add_task x q).1
  unfolding add_task
  add_task-Good g t x q (w, f) =
      choose (λ (r : Gave × BlockQueue A). Good (g ++ given_by r.0 x) t (r.1))
        (leb q.max_size (length q.task_queue) && not q.stopped)
        (λ b. (
          record {
            sized = w.sized;
            takers_wait = w.takers_wait;
            givers_wait = λ h. (ground arith, ground arith);
          },
          nothing_given,
        ))
        (λ b.
          choose (λ (r : Gave × BlockQueue A). Good (g ++ given_by r.0 x) t (r.1)) q.stopped
            (λ s. (w, nothing_given))
            (λ s.
              notify_empty-Good (g ++ (x ∷ [])) t (is_empty q.task_queue)
                (record q { task_queue = q.task_queue ++ (x ∷ []) }) w.sized
                (λ n h. absurd (not_both q.task_queue n (w.takers_wait h).0))
                (λ h.
                  let (le, s') = w.givers_wait h in
                  (omega (arith, length-append q.task_queue (x ∷ [])), s'))
                (sym (append_assoc t q.task_queue (x ∷ [])) ∙ ap (λ y. y ++ (x ∷ [])) f)))
    where
      nothing_given : t ++ q.task_queue ≡ g ++ []
      nothing_given = f ∙ sym (append-nil g)

  create-Good : (n : ℕ) → n < 2 ^ 64 → Good [] [] (create n)
  unfolding create
  create-Good n m = (
    record {
      sized = m;
      takers_wait = λ h. absurd (omega arith);
      givers_wait = λ h. absurd (omega arith);
    },
    refl,
  )

  set_max_size-Good :
      (m : ℕ) (g t : List A) (q : BlockQueue A)
      → m < 2 ^ 64
      → Good g t q
      → Good g t (set_max_size m q)
  unfolding set_max_size
  set_max_size-Good m g t q small (w, f) =
      notify_full-Good g t (ltb (length q.task_queue) m) (record q { max_size = m }) small
        w.takers_wait (λ b h. (ground arith, (w.givers_wait h).1)) f

  stop-Good : (g t : List A) (q : BlockQueue A) → Good g t q → Good g t (stop q)
  unfolding stop
  stop-Good g t q (w, f) = (
    record {
      sized = w.sized;
      takers_wait = λ h. absurd (omega arith);
      givers_wait = λ h. absurd (omega arith);
    },
    f,
  )

  -- One sleeper less is no worse.
  fewer_takers :
      (g t : List A) (q : BlockQueue A) (k : ℕ)
      → q.takers ≡ suc k
      → Good g t q
      → Good g t (record q { takers = k })
  fewer_takers g t q k e (w, f) = (
    record {
      sized = w.sized;
      takers_wait = λ h. w.takers_wait (omega arith);
      givers_wait = w.givers_wait;
    },
    f,
  )

  fewer_givers :
      (g t : List A) (q : BlockQueue A) (k : ℕ)
      → q.givers ≡ suc k
      → Good g t q
      → Good g t (record q { givers = k })
  fewer_givers g t q k e (w, f) = (
    record {
      sized = w.sized;
      takers_wait = w.takers_wait;
      givers_wait = λ h. w.givers_wait (omega arith);
    },
    f,
  )

  Run-Good : {n : ℕ} {g t : List A} {q : BlockQueue A} → n < 2 ^ 64 → Run n g t q → Good g t q
  Run-Good m (begins) = create-Good _ m
  Run-Good m (gets r) = get_task-Good _ _ _ (Run-Good m r)
  Run-Good m (gets_again k e r) = get_task-Good _ _ _ (fewer_takers _ _ _ k e (Run-Good m r))
  Run-Good m (adds x r) = add_task-Good _ _ x _ (Run-Good m r)
  Run-Good m (adds_again k x e r) = add_task-Good _ _ x _ (fewer_givers _ _ _ k e (Run-Good m r))
  Run-Good m (resizes l s r) = set_max_size-Good l _ _ _ s (Run-Good m r)
  Run-Good m (stops r) = stop-Good _ _ _ (Run-Good m r)

  -- In every run, whatever threads call and wake, notified or not: a thread sleeps in `getTask` only
  -- while there is no task, and in `addTask` only while the queue is full, and neither once it is
  -- stopped. The tasks that were taken, with those that are left, are those that were given, in order.
  pub no_wakeup_is_lost :
      {n : ℕ} {g t : List A} {q : BlockQueue A}
      → n < 2 ^ 64
      → Run n g t q
      → Awake q × (t ++ q.task_queue ≡ g)
  no_wakeup_is_lost m r = Run-Good m r
