-- ===== src/Core/CostModel/Tasks.antt =====
-- The tasks that `pack_group_costs` returns: what they hold, that they fit, and that a task ends
-- only where the next group has no room in it.
use smoking_data.Prelude.{
  ◌≡◌, refl, inl, inr, false, List, [], ◌∷◌, ◌++◌, flatten, Bool-cases, is_empty, All, All-append,
}
use smoking_data.Core.CostModel.{
  GroupCost, PackLimits, PackState, pack_start, exceeds, pack_step, pack_loop, pack_finish,
  pack_group_costs, all_files,
}
use smoking_data.Core.CostModel.Packing.{
  IsSound, IsBlocked, IsGreedy, IsTallied, step-IsTallied, loop-groups, room-Fits, full-IsBlocked,
}

module _ (l : PackLimits) where
  -- The tasks are closed one by one, and the last may still grow.
  IsGreedy-grow :
      (ps : List (List GroupCost)) (t : List GroupCost) (g : GroupCost)
      → is_empty t ≡ false
      → IsGreedy l (ps ++ t ∷ [])
      → IsGreedy l (ps ++ (t ++ g ∷ []) ∷ [])
  IsGreedy-grow [] t g more h = tt
  IsGreedy-grow (p ∷ []) [] g more h = cc
  IsGreedy-grow (p ∷ []) (x ∷ t) g more h = h
  IsGreedy-grow (p ∷ q ∷ ps) t g more h = (h.0, IsGreedy-grow (q ∷ ps) t g more h.1)

  IsGreedy-snoc :
      (ps : List (List GroupCost)) (t : List GroupCost) (g : GroupCost)
      → IsBlocked l t g
      → IsGreedy l (ps ++ t ∷ [])
      → IsGreedy l ((ps ++ t ∷ []) ++ (g ∷ []) ∷ [])
  IsGreedy-snoc [] t g b h = (b, tt)
  IsGreedy-snoc (p ∷ []) t g b h = (h.0, (b, tt))
  IsGreedy-snoc (p ∷ q ∷ ps) t g b h = (h.0, IsGreedy-snoc (q ∷ ps) t g b h.1)

  -- What holds once the first group has been taken.
  record IsRunning (s : PackState) : Type 0 where
    tallied : IsTallied l s
    more : is_empty s.current ≡ false
    sound : All (IsSound l) s.packed × IsSound l s.current
    solid : All (λ t. is_empty t ≡ false) s.packed
    greedy : IsGreedy l (s.packed ++ s.current ∷ [])

  snoc-more : (t : List GroupCost) (g : GroupCost) → is_empty (t ++ g ∷ []) ≡ false
  snoc-more [] g = refl
  snoc-more (x ∷ t) g = refl

  step-IsRunning : (s : PackState) (g : GroupCost) → IsRunning s → IsRunning (pack_step l s g)
  unfolding pack_step
  step-IsRunning s g h = elim (Bool-cases (exceeds l s g)) [
    | inl full ↦ record {
      tallied = step-IsTallied l s g h.tallied;
      more = rw full refl;
      sound = rw full (All-append (IsSound l) s.packed _ h.sound.0 (h.sound.1, tt), inl refl);
      solid = rw full (All-append (λ t. is_empty t ≡ false) s.packed _ h.solid (h.more, tt));
      greedy =
          rw full
            (IsGreedy-snoc s.packed s.current g (full-IsBlocked l s g h.tallied full) h.greedy);
    }
    | inr room ↦ record {
      tallied = step-IsTallied l s g h.tallied;
      more = rw room (snoc-more s.current g);
      sound = rw room (h.sound.0, inr (room-Fits l s g h.tallied h.more room));
      solid = rw room h.solid;
      greedy = rw room (IsGreedy-grow s.packed s.current g h.more h.greedy);
    }
  ]

  first-IsRunning : (g : GroupCost) → IsRunning (pack_step l pack_start g)
  unfolding pack_step exceeds all_files
  first-IsRunning g = record {
    tallied = step-IsTallied l pack_start g (record { rows = refl; bytes = refl; files = refl });
    more = refl;
    sound = (tt, inl refl);
    solid = tt;
    greedy = tt;
  }

  loop-IsRunning :
      (s : PackState) (gs : List GroupCost) → IsRunning s → IsRunning (pack_loop l s gs)
  unfolding pack_loop
  loop-IsRunning s [] h = h
  loop-IsRunning s (g ∷ gs) h = loop-IsRunning (pack_step l s g) gs (step-IsRunning s g h)

-- What a packing promises: no task is empty, each is within the limits or is one group, and no task
-- was closed while the next group still had room in it.
pub record IsPacking (l : PackLimits) (tasks : List (List GroupCost)) : Type 0 where
  pub sound : All (IsSound l) tasks
  pub solid : All (λ t. is_empty t ≡ false) tasks
  pub greedy : IsGreedy l tasks

finish-IsPacking : (l : PackLimits) (s : PackState) → IsRunning l s → IsPacking l (pack_finish s)
unfolding pack_finish
finish-IsPacking l s h = rw h.more (record {
  sound = All-append (IsSound l) s.packed _ h.sound.0 (h.sound.1, tt);
  solid = All-append (λ t. is_empty t ≡ false) s.packed _ h.solid (h.more, tt);
  greedy = h.greedy;
})

-- For all limits and groups, the tasks in order hold exactly the given groups in their order: no
-- group is split, lost, repeated or moved.
pub flatten-pack_group_costs :
    (l : PackLimits) (groups : List GroupCost) → flatten (pack_group_costs l groups) ≡ groups
unfolding pack_group_costs flatten
flatten-pack_group_costs l groups = loop-groups l pack_start groups

-- For all limits and groups, no task is empty; a task of more than one group is within the limits
-- on rows, bytes (a group of unknown size counting as the byte limit), source files and groups; and
-- the first group of each later task would have passed a limit in the task before it.
pub pack_group_costs-IsPacking :
    (l : PackLimits) (groups : List GroupCost) → IsPacking l (pack_group_costs l groups)
unfolding pack_group_costs
pack_group_costs-IsPacking l [] = record { sound = tt; solid = tt; greedy = tt }
pack_group_costs-IsPacking l (g ∷ gs) =
    finish-IsPacking l (pack_loop l pack_start (g ∷ gs))
      (loop-IsRunning l (pack_step l pack_start g) gs (first-IsRunning l g))
