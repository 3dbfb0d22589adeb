-- ===== src/Core/Optimizer/Refinement.antt =====
-- What the plans that `optimize_logical_plan` of src/smoking_data/core/optimizer.py returns make of a table.
use smoking_data.Prelude.{ℕ, String, List, All}
use smoking_data.Core.Optimizer.{Operation}
use smoking_data.Core.Optimizer.Loop.{Search, OptimizationResult}
use smoking_data.Core.Optimizer.Engine.{Engine}
use smoking_data.Core.Optimizer.Sound.{Sound}
use smoking_data.Core.Optimizer.Rows.{SameMeaning}

module _ (engine : Engine) (signature : Operation → String) (max_plans : ℕ)
    (plan : List Operation) where
  -- The current plan is sound, and it and all candidates mean what the plan means.
  Meant : Search → Type 0
  Meant s =
      All (Sound engine) s.current
      × SameMeaning engine plan s.current
      × All (SameMeaning engine plan) s.candidates

  Refines : OptimizationResult → Type 0
  Refines r =
      SameMeaning engine plan r.optimized_plan × All (SameMeaning engine plan) r.candidate_plans
