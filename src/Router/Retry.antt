-- ===== src/Router/Retry.antt =====
-- RetryBudget and SelectWeightedUpstream of internal/router/router.go. A nil budget is none; `roll` is what
-- rand.Intn gives below the total weight.
use torana_enterprise.Prelude.{
  ℕ, ◌+◌, ◌%◌, ◌^◌, Bool, true, false, List, [], ◌∷◌, Option, none, some, if◌then◌else◌,
}
use torana_enterprise.Prelude.Int.{ℤ, pos, wrap64, ltb_ℤ, leb_ℤ}
use torana_enterprise.Prelude.Float.{Float64}
use torana_enterprise.Config.Types.{UpstreamCluster}
use torana_enterprise.Router.Types.{WeightedTarget}
use torana_enterprise.Router.Match.{pick}

-- the two counters are uint64
pub record RetryBudget (F : Type 0) : Type 0 where
  pub max_ratio : F
  pub min_retries : ℤ
  pub requests : ℕ
  pub retries : ℕ

module _ (fl : Float64) where
  -- `default` is 0.2
  unfoldable pub new_retry_budget : fl.F → fl.F → ℤ → RetryBudget fl.F
  new_retry_budget default max_ratio min_retries = record {
    max_ratio = if fl.leb max_ratio (fl.of_int (pos 0)) then default else max_ratio;
    min_retries = if leb_ℤ min_retries (pos 0) then pos 10 else min_retries;
    requests = 0;
    retries = 0;
  }

  abbrev one_retry : RetryBudget fl.F → RetryBudget fl.F
  one_retry b = record b { retries = (b.retries + 1) % 2 ^ 64 }

  -- retries below the minimum, or below the ratio
  within_budget : RetryBudget fl.F → Bool
  within_budget b =
      if ltb_ℤ (wrap64 (pos b.retries)) b.min_retries
      then true
      else fl.ltb (fl.div (fl.of_int (pos b.retries)) (fl.of_int (pos ((b.requests + 1) % 2 ^ 64))))
          b.max_ratio

  unfoldable pub allow_retry : Option (RetryBudget fl.F) → Bool × Option (RetryBudget fl.F)
  unfolding within_budget
  allow_retry none = (true, none)
  allow_retry (some b) = if within_budget b then (true, some (one_retry b)) else (false, some b)

upstream_of : WeightedTarget → UpstreamCluster
upstream_of t = t.upstream

picked : UpstreamCluster → Option UpstreamCluster → UpstreamCluster
picked first none = first
picked first (some u) = u

unfoldable pub select_weighted_upstream : ℕ → List WeightedTarget → ℤ → Option UpstreamCluster
unfolding upstream_of picked
select_weighted_upstream roll [] total = none
select_weighted_upstream roll (t ∷ ts) total =
    if leb_ℤ total (pos 0)
    then some (upstream_of t)
    else some (picked (upstream_of t) (pick (pos roll) (pos 0) (t ∷ ts)))
