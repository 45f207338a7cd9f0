-- ===== src/Assignment.antt =====
-- internal/proxy/assignment.go: assignments of users to backends, with their weights. The JSON codec
-- is Go's library and is not modelled.
use sticky_proxy.Prelude.{ℕ, zero, suc, String}
use sticky_proxy.Prelude.Int.{ℤ, pos, negsuc}

pub record Assignment : Type 0 where
  pub backend : String
  pub assigned_at : ℕ
  pub source : String
  pub weight : ℤ

unfoldable pub weight_or_one : ℤ → ℕ
weight_or_one (pos zero) = 1
weight_or_one (pos (suc n)) = suc n
weight_or_one (negsuc n) = 1

-- `EffectiveWeight`: a weight of 0 or less counts as 1.
unfoldable pub effective_weight : Assignment → ℕ
unfolding weight_or_one
effective_weight a = weight_or_one a.weight

pub record BulkAssignEntry : Type 0 where
  pub backend : String
  pub weight : ℤ
