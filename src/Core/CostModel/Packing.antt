-- ===== src/Core/CostModel/Packing.antt =====
-- What the running totals of `pack_group_costs` stand for, and what its test decides about a task.
use smoking_data.Prelude.{
  ℕ, ◌+◌, ◌≤◌, ◌<◌, ◌≡◌, refl, sym, ◌∙◌, ◌⊎◌, inl, inr, String, true, false, Option, none, some,
  List, [], ◌∷◌, ◌++◌, append_assoc, append-nil, flatten, flatten-snoc, arith, Bool-cases, length,
  is_empty, sum_by, sum_by-append, length-append, if◌then◌else◌,
}
use smoking_data.Prelude.Names.{union}
use smoking_data.Core.CostModel.{
  GroupCost, PackLimits, PackState, group_bytes, exceeds, close_task, append_group, pack_step,
  pack_loop, pack_finish, all_files,
}

abbrev pub task_rows : List GroupCost → ℕ
task_rows t = sum_by (λ (g : GroupCost). g.rows) t

abbrev pub task_bytes : PackLimits → List GroupCost → ℕ
task_bytes l t = sum_by (group_bytes l) t

abbrev pub GroupsWithin : Option ℕ → ℕ → Type 0
GroupsWithin none n = Unit
GroupsWithin (some m) n = n ≤ m

-- The task is within each of the limits.
pub record Fits (l : PackLimits) (t : List GroupCost) : Type 0 where
  pub rows : task_rows t ≤ l.max_rows
  pub bytes : task_bytes l t ≤ l.max_bytes
  pub files : length (all_files [] t) ≤ l.max_source_files
  pub groups : GroupsWithin l.max_groups (length t)

-- A task of one group may be larger than the limits: a group is never split.
abbrev pub IsSound : PackLimits → List GroupCost → Type 0
IsSound l t = (length t ≡ 1) ⊎ Fits l t

abbrev pub GroupsFull : Option ℕ → ℕ → Type 0
GroupsFull none n = ⊥
GroupsFull (some m) n = m ≤ n

-- The group has no room in the task.
abbrev pub IsBlocked : PackLimits → List GroupCost → GroupCost → Type 0
IsBlocked l t g =
    (l.max_rows < task_rows t + g.rows)
    ⊎ (l.max_bytes < task_bytes l t + group_bytes l g)
    ⊎ (l.max_source_files < length (union (all_files [] t) g.source_files))
    ⊎ GroupsFull l.max_groups (length t)

abbrev pub BlockedHead : PackLimits → List GroupCost → List GroupCost → Type 0
BlockedHead l t [] = ⊥
BlockedHead l t (g ∷ u) = IsBlocked l t g

-- The first group of each task but the first has no room in the task before.
abbrev pub IsGreedy : PackLimits → List (List GroupCost) → Type 0
IsGreedy l [] = Unit
IsGreedy l (t ∷ []) = Unit
IsGreedy l (t ∷ u ∷ r) = BlockedHead l t u × IsGreedy l (u ∷ r)

all_files-append :
    (fs : List String) (xs ys : List GroupCost)
    → all_files fs (xs ++ ys) ≡ all_files (all_files fs xs) ys
unfolding all_files
all_files-append fs [] ys = refl
all_files-append fs (x ∷ xs) ys = all_files-append (union fs x.source_files) xs ys

module _ (l : PackLimits) where
  -- What the running totals stand for.
  pub record IsTallied (s : PackState) : Type 0 where
    pub rows : s.current_rows ≡ task_rows s.current
    pub bytes : s.current_bytes ≡ task_bytes l s.current
    pub files : s.current_files ≡ all_files [] s.current

  close-IsTallied : (s : PackState) → IsTallied (close_task s)
  unfolding all_files
  close-IsTallied s = record { rows = refl; bytes = refl; files = refl }

  append-IsTallied : (s : PackState) (g : GroupCost) → IsTallied s → IsTallied (append_group l s g)
  unfolding all_files
  append-IsTallied s g h = record {
    rows = omega (arith, h.rows, sum_by-append (λ (x : GroupCost). x.rows) s.current (g ∷ []));
    bytes = omega (arith, h.bytes, sum_by-append (group_bytes l) s.current (g ∷ []));
    files = rw h.files (sym (all_files-append [] s.current (g ∷ [])));
  }

  pub step-IsTallied : (s : PackState) (g : GroupCost) → IsTallied s → IsTallied (pack_step l s g)
  unfolding pack_step
  step-IsTallied s g h = elim (Bool-cases (exceeds l s g)) [
    | inl full ↦ rw full (append-IsTallied (close_task s) g (close-IsTallied s))
    | inr room ↦ rw room (append-IsTallied s g h)
  ]

  pub step-groups :
      (s : PackState) (g : GroupCost)
      → flatten (pack_step l s g).packed ++ (pack_step l s g).current
        ≡ (flatten s.packed ++ s.current) ++ g ∷ []
  unfolding pack_step
  step-groups s g = elim (Bool-cases (exceeds l s g)) [
    | inl full ↦ rw (full, flatten-snoc) refl
    | inr room ↦ rw (room, append_assoc) refl
  ]

  finish-groups :
      (packed : List (List GroupCost)) (current : List GroupCost)
      → flatten (if is_empty current then packed else packed ++ current ∷ [])
        ≡ flatten packed ++ current
  finish-groups packed [] = sym (append-nil (flatten packed))
  finish-groups packed (g ∷ gs) = flatten-snoc packed (g ∷ gs)

  pub loop-groups :
      (s : PackState) (gs : List GroupCost)
      → flatten (pack_finish (pack_loop l s gs)) ≡ (flatten s.packed ++ s.current) ++ gs
  unfolding pack_loop pack_finish
  loop-groups s [] = finish-groups s.packed s.current ∙ sym (append-nil _)
  loop-groups s (g ∷ gs) =
      loop-groups (pack_step l s g) gs ∙ rw (step-groups s g, append_assoc) refl

  pub room-Fits :
      (s : PackState) (g : GroupCost)
      → IsTallied s
      → is_empty s.current ≡ false
      → exceeds l s g ≡ false
      → Fits l (s.current ++ g ∷ [])
  unfolding exceeds
  room-Fits s g h more room =
      let t = append-IsTallied s g h in
      record {
        rows = rw (← t.rows) (ground arith);
        bytes = rw (← t.bytes) (ground arith);
        files = rw (← t.files) (ground arith);
        groups = rw (length-append s.current (g ∷ [])) (ground arith);
      }

  pub full-IsBlocked :
      (s : PackState) (g : GroupCost) → IsTallied s → exceeds l s g ≡ true → IsBlocked l s.current g
  unfolding exceeds
  full-IsBlocked s g h full = rw (← h.rows, ← h.bytes, ← h.files) (ground arith)
