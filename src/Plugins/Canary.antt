-- ===== src/Plugins/Canary.antt =====
-- CanaryFilter of internal/plugins/manager/canary.go. `roll` is what rand.Int gives of the numbers below
-- 100, or none on an error. An envelope has its metadata; a filter that is set is not nil.
pub mod Share
use torana_enterprise.Prelude.{
  ℕ, Bool, true, false, List, [], ◌∷◌, Option, none, some, ltb, if◌then◌else◌,
}
use torana_enterprise.Prelude.Int.{ℤ, pos, ltb_ℤ, leb_ℤ}
use torana_enterprise.Prelude.Maps.{insert}
use torana_enterprise.Prelude.Bytes.{Bytes, bytes, bytes_key}
use torana_enterprise.Pipeline.Types.{
  Phase, request_headers, BodyMode, none_mode, FailurePolicy, fail_closed, Err, Decision, Envelope,
  continue_decision,
}
use torana_enterprise.Pipeline.Chain.{Filter}

pub record CanaryFilter (W : Type 0) : Type 0 where
  pub plugin_id : Bytes
  pub phase : Phase
  pub body_mode : BodyMode
  pub failure_policy : FailurePolicy
  pub stable : Option (Filter W)
  pub canary : Option (Filter W)
  pub canary_percent : ℤ

rolled : Option ℕ → ℤ → Bool
rolled none pct = false
rolled (some n) pct = ltb_ℤ (pos n) pct

-- the metadata of a request that goes to the canary
unfoldable pub mark_routed : Envelope → Envelope
mark_routed env = record env {
  metadata = insert (bytes "x-canary-routed") (bytes "true") env.metadata;
}

module _ {W : Type 0} where
  unfoldable pub new_canary_filter : Bytes → Option (Filter W) → CanaryFilter W
  new_canary_filter plugin_id none = record {
    plugin_id = plugin_id;
    phase = request_headers;
    body_mode = none_mode;
    failure_policy = fail_closed;
    stable = none;
    canary = none;
    canary_percent = pos 0;
  }
  new_canary_filter plugin_id (some f) = record {
    plugin_id = plugin_id;
    phase = f.phase;
    body_mode = f.body_mode;
    failure_policy = f.failure_policy;
    stable = some f;
    canary = none;
    canary_percent = pos 0;
  }

  unfoldable pub set_canary : Option (Filter W) → ℤ → CanaryFilter W → CanaryFilter W
  set_canary canary percentage c = record c {
    canary = canary;
    canary_percent =
        if ltb_ℤ percentage (pos 0)
        then pos 0
        else if ltb_ℤ (pos 100) percentage
        then pos 100
        else percentage;
  }

  promoted : Option (Filter W) → CanaryFilter W → CanaryFilter W
  promoted none c = c
  promoted (some f) c = record c {
    stable = some f;
    phase = f.phase;
    body_mode = f.body_mode;
    failure_policy = f.failure_policy;
    canary = none;
    canary_percent = pos 0;
  }

  -- the old stable filter, and the filter afterwards
  unfoldable pub promote_canary : CanaryFilter W → Option (Filter W) × CanaryFilter W
  unfolding promoted
  promote_canary c = (c.stable, promoted c.canary c)

  unfoldable pub clear_canary : CanaryFilter W → Option (Filter W) × CanaryFilter W
  clear_canary c = (c.canary, record c { canary = none; canary_percent = pos 0 })

  unfoldable pub active_filters : CanaryFilter W → Option (Filter W) × Option (Filter W)
  active_filters c = (c.stable, c.canary)

  unfoldable pub should_route_canary : Option ℕ → CanaryFilter W → Bool
  unfolding rolled
  should_route_canary roll c =
      if leb_ℤ c.canary_percent (pos 0)
      then false
      else if leb_ℤ (pos 100) c.canary_percent
      then true
      else rolled roll c.canary_percent

  by_stable : Option (Filter W) → Envelope → W → Decision × Option Err × Envelope × W
  by_stable none env w = (continue_decision, none, env, w)
  by_stable (some f) env w = f.process env w

  by_canary :
      Bool → Filter W → Option (Filter W) → Envelope → W → Decision × Option Err × Envelope × W
  unfolding by_stable
  by_canary true f stable env w = f.process (mark_routed env) w
  by_canary false f stable env w = by_stable stable env w

  by_either :
      Option (Filter W)
      → Bool
      → Option (Filter W)
      → Envelope
      → W
      → Decision × Option Err × Envelope × W
  unfolding by_canary
  by_either none b stable env w = by_stable stable env w
  by_either (some f) b stable env w = by_canary b f stable env w

  unfoldable pub process :
      Option ℕ → CanaryFilter W → Envelope → W → Decision × Option Err × Envelope × W
  unfolding by_either
  process roll c env w = by_either c.canary (should_route_canary roll c) c.stable env w
