-- ===== src/Planners/Cohorts/Runs.antt =====
-- The runs that `split_runs` makes: they hold the items in their order, and are within the limits.
use smoking_data.Prelude.{
  ◌≡◌, refl, sym, ap, subst, ◌∙◌, ◌⊎◌, inl, inr, true, false, not, ◌&&◌, List, [], ◌∷◌, ◌++◌,
  append_assoc, append-nil, flatten, flatten-snoc, arith, Bool-cases, length, is_empty, All,
  All-append, if◌then◌else◌, if-elim,
}
use smoking_data.Planners.Cohorts.{
  Weight, OpenRuns, empty_weight, add_weight, is_oversized, would_exceed, sum_weights, close_run,
  add_item, make_room, run_step, run_loop, last_run, split_runs,
}

heavier :
    (a b limits : Weight)
    → is_oversized (add_weight a b) limits ≡ false
    → is_oversized b limits ≡ false
unfolding is_oversized
heavier a b limits h = ground arith

module _ {A : Type 0} (weight : A → Weight) (limits : Weight) where
  abbrev pub run_weight : List A → Weight
  run_weight run = sum_weights weight empty_weight run

  -- A run is not empty, and within the limits or a single item.
  pub record IsRun (run : List A) : Type 0 where
    pub some_item : is_empty run ≡ false
    pub within : (is_oversized (run_weight run) limits ≡ false) ⊎ (length run ≡ 1)

  sum_weights-snoc :
      (total : Weight) (xs : List A) (x : A)
      → sum_weights weight total (xs ++ x ∷ [])
        ≡ add_weight (sum_weights weight total xs) (weight x)
  unfolding sum_weights
  sum_weights-snoc total [] x = refl
  sum_weights-snoc total (y ∷ xs) x = sum_weights-snoc (add_weight total (weight y)) xs x

  -- The totals are those of the open run, which is within the limits, and the closed runs are as they should be.
  record IsOpen (r : OpenRuns weight limits) : Type 0 where
    tallied : r.totals ≡ run_weight r.current
    within : is_oversized r.totals limits ≡ false
    closed : All IsRun r.closed

  nothing : (is_oversized empty_weight limits ≡ false)
  unfolding is_oversized
  nothing = ground arith

  close-IsOpen :
      (r : OpenRuns weight limits)
      → IsRun r.current
      → All IsRun r.closed
      → IsOpen (close_run weight limits r)
  unfolding sum_weights
  close-IsOpen r run h = record {
    tallied = refl;
    within = nothing;
    closed = All-append IsRun r.closed (r.current ∷ []) h (run, tt);
  }

  open-IsRun :
      (r : OpenRuns weight limits) → IsOpen r → is_empty r.current ≡ false → IsRun r.current
  open-IsRun r h more = record {
    some_item = more;
    within = inl (subst (λ w. is_oversized w limits ≡ false) h.tallied h.within);
  }

  -- After `make_room` the open run has room for the item, or is empty.
  HasRoom : A → OpenRuns weight limits → Type 0
  HasRoom x r = (is_empty r.current ≡ true) ⊎ (would_exceed r.totals (weight x) limits ≡ false)

  make_room-IsOpen :
      (x : A) (r : OpenRuns weight limits)
      → IsOpen r
      → IsOpen (make_room weight limits x r) × HasRoom x (make_room weight limits x r)
  unfolding make_room HasRoom
  make_room-IsOpen x r h =
      elim (Bool-cases (not (is_empty r.current) && would_exceed r.totals (weight x) limits)) [
        | inl full ↦ rw full (close-IsOpen r (open-IsRun r h (ground arith)) h.closed, inl refl)
        | inr room ↦ rw room (h, ground arith)
      ]

  empty_list : (xs : List A) → is_empty xs ≡ true → xs ≡ []
  empty_list [] h = refl
  empty_list (x ∷ xs) h = cc

  snoc-more : (t : List A) (x : A) → is_empty (t ++ x ∷ []) ≡ false
  snoc-more [] x = refl
  snoc-more (y ∷ t) x = refl

  added-tallied :
      (x : A) (r : OpenRuns weight limits)
      → r.totals ≡ run_weight r.current
      → add_weight r.totals (weight x) ≡ run_weight (r.current ++ x ∷ [])
  added-tallied x r h =
      ap (λ w. add_weight w (weight x)) h ∙ sym (sum_weights-snoc empty_weight r.current x)

  alone :
      (x : A)
      → is_oversized (weight x) limits ≡ false
      → is_oversized (add_weight empty_weight (weight x)) limits ≡ false
  unfolding is_oversized
  alone x h = ground arith

  -- An item that is not oversized itself goes into the open run.
  light-IsOpen :
      (x : A) (r : OpenRuns weight limits)
      → IsOpen r
      → HasRoom x r
      → is_oversized (weight x) limits ≡ false
      → IsOpen (add_item weight limits x r)
  unfolding HasRoom sum_weights
  light-IsOpen x r h (inr room) light = record {
    tallied = added-tallied x r h.tallied;
    within = room;
    closed = h.closed;
  }
  light-IsOpen x r h (inl none_open) light = record {
    tallied = added-tallied x r h.tallied;
    within =
        subst (λ w. is_oversized (add_weight w (weight x)) limits ≡ false)
          (sym (h.tallied ∙ ap run_weight (empty_list r.current none_open))) (alone x light);
    closed = h.closed;
  }

  -- An oversized item is a run of its own.
  heavy-IsOpen :
      (x : A) (r : OpenRuns weight limits)
      → IsOpen r
      → HasRoom x r
      → is_oversized (weight x) limits ≡ true
      → IsOpen (close_run weight limits (add_item weight limits x r))
  unfolding HasRoom
  heavy-IsOpen x r h (inr room) heavy =
      absurd (ground (arith, heavier r.totals (weight x) limits room))
  heavy-IsOpen x r h (inl none_open) heavy =
      close-IsOpen (add_item weight limits x r)
        (record {
          some_item = snoc-more r.current x;
          within = inr (ap (λ xs. length (xs ++ x ∷ [])) (empty_list r.current none_open));
        })
        h.closed

  run_step-IsOpen :
      (x : A) (r : OpenRuns weight limits) → IsOpen r → IsOpen (run_step weight limits x r)
  unfolding run_step
  run_step-IsOpen x r h =
      let (open_r, room) = make_room-IsOpen x r h in
      elim (Bool-cases (is_oversized (weight x) limits)) [
        | inl heavy ↦ rw heavy (heavy-IsOpen x (make_room weight limits x r) open_r room heavy)
        | inr light ↦ rw light (light-IsOpen x (make_room weight limits x r) open_r room light)
      ]

  run_loop-IsOpen :
      (xs : List A) (r : OpenRuns weight limits) → IsOpen r → IsOpen (run_loop weight limits xs r)
  unfolding run_loop
  run_loop-IsOpen [] r h = h
  run_loop-IsOpen (x ∷ xs) r h =
      run_loop-IsOpen xs (run_step weight limits x r) (run_step-IsOpen x r h)

  last_run-IsRun : (r : OpenRuns weight limits) → IsOpen r → All IsRun (last_run weight limits r)
  last_run-IsRun r h = elim (Bool-cases (is_empty r.current)) [
    | inl done ↦ rw done h.closed
    | inr more ↦
        rw more (All-append IsRun r.closed (r.current ∷ []) h.closed (open-IsRun r h more, tt))
  ]

  pub split_runs-IsRun : (xs : List A) → All IsRun (split_runs weight limits xs)
  unfolding split_runs sum_weights
  split_runs-IsRun xs =
      let started : OpenRuns weight limits = record {
        closed = [];
        current = [];
        totals = empty_weight;
      } in
      last_run-IsRun (run_loop weight limits xs started)
        (run_loop-IsOpen xs started (record { tallied = refl; within = nothing; closed = tt }))

  abbrev items : OpenRuns weight limits → List A
  items r = flatten r.closed ++ r.current

  items-close : (r : OpenRuns weight limits) → items (close_run weight limits r) ≡ items r
  unfolding flatten
  items-close r = rw (flatten-snoc r.closed r.current) (append-nil _)

  items-make_room :
      (x : A) (r : OpenRuns weight limits) → items (make_room weight limits x r) ≡ items r
  unfolding make_room
  items-make_room x r =
      if-elim (λ q. items q ≡ items r)
        (not (is_empty r.current) && would_exceed r.totals (weight x) limits)
        (close_run weight limits r) r (items-close r) refl

  items-add_item :
      (x : A) (r : OpenRuns weight limits) → items (add_item weight limits x r) ≡ items r ++ x ∷ []
  items-add_item x r = sym (append_assoc (flatten r.closed) r.current (x ∷ []))

  items-run_step :
      (x : A) (r : OpenRuns weight limits) → items (run_step weight limits x r) ≡ items r ++ x ∷ []
  unfolding run_step
  items-run_step x r =
      let added = add_item weight limits x (make_room weight limits x r) in
      let step =
        items-add_item x (make_room weight limits x r)
        ∙ ap (λ xs. xs ++ x ∷ []) (items-make_room x r) in
      if-elim (λ q. items q ≡ items r ++ x ∷ []) (is_oversized (weight x) limits)
        (close_run weight limits added) added (items-close added ∙ step) step

  items-run_loop :
      (xs : List A) (r : OpenRuns weight limits)
      → items (run_loop weight limits xs r) ≡ items r ++ xs
  unfolding run_loop
  items-run_loop [] r = sym (append-nil _)
  items-run_loop (x ∷ xs) r =
      items-run_loop xs (run_step weight limits x r)
      ∙ ap (λ ys. ys ++ xs) (items-run_step x r)
      ∙ append_assoc (items r) (x ∷ []) xs

  flatten-last_run :
      (closed : List (List A)) (current : List A)
      → flatten (if is_empty current then closed else closed ++ current ∷ [])
        ≡ flatten closed ++ current
  flatten-last_run closed [] = sym (append-nil _)
  flatten-last_run closed (x ∷ xs) = flatten-snoc closed (x ∷ xs)

  -- The runs hold the items in their order.
  pub flatten-split_runs : (xs : List A) → flatten (split_runs weight limits xs) ≡ xs
  unfolding split_runs flatten
  flatten-split_runs xs =
      let started : OpenRuns weight limits = record {
        closed = [];
        current = [];
        totals = empty_weight;
      } in
      let r = run_loop weight limits xs started in
      flatten-last_run r.closed r.current ∙ items-run_loop xs started
