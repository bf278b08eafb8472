-- ===== src/Limits/Store/Laws.antt =====
-- What the limiter relies on of a counter store at one time (internal/limits/store.go, CounterStore):
-- a count of tokens at each key, changed by each call as the interface says. `Budget` below the
-- limiter takes these laws, which `Local` below the store has for the local one.
use torana_enterprise.Prelude.{ℕ, ◌+◌, ◌-◌, ◌^◌, ◌<◌, ◌≡◌, true, false, if◌then◌else◌}
use torana_enterprise.Prelude.Int.{ℤ, pos, pos_part, neg_part, ◌<ℤ◌}
use torana_enterprise.Prelude.Maps.{◌≟◌}
use torana_enterprise.Prelude.Bytes.{Bytes, bytes_key}
use torana_enterprise.Limits.Types.{Window, refused}
use torana_enterprise.Limits.Store.{CounterStore}

pub record CounterLaws {F S : Type 0} (cs : CounterStore F S) (now : ℕ) : Type 1 where
  -- what every call keeps of the state
  pub IsGood : S → Type 0
  -- the key has a counter that has not expired
  pub IsLive : S → Bytes → Type 0
  pub usage : S → Bytes → ℕ
  pub reserve_granted :
      (k : Bytes) (n : ℕ) (limit : ℤ) (w : Window) (s : S)
      → IsGood s
      → pos 0 <ℤ limit
      → refused (cs.reserve now k (pos n) limit w s).0 ≡ false
      → let s' = (cs.reserve now k (pos n) limit w s).1 in
        IsGood s'
        × IsLive s' k
        × ((j : Bytes) → IsLive s j → IsLive s' j)
        × ((j : Bytes) → usage s' j ≡ usage s j + (if k ≟ j then n else 0))
  pub reserve_refused :
      (k : Bytes) (n : ℕ) (limit : ℤ) (w : Window) (s : S)
      → IsGood s
      → pos 0 <ℤ limit
      → refused (cs.reserve now k (pos n) limit w s).0 ≡ true
      → let s' = (cs.reserve now k (pos n) limit w s).1 in
        IsGood s'
        × ((j : Bytes) → IsLive s j → IsLive s' j)
        × ((j : Bytes) → usage s' j ≡ usage s j)
  -- a delta below the count is clamped at 0
  pub reconcile_live :
      (k : Bytes) (d : ℤ) (w : Window) (s : S)
      → IsGood s
      → IsLive s k
      → usage s k + pos_part d < 2 ^ 63
      → neg_part d < 2 ^ 63
      → let s' = cs.reconcile now k d w s in
        IsGood s'
        × ((j : Bytes) → IsLive s j → IsLive s' j)
        × ((j : Bytes)
            → usage s' j ≡ (if k ≟ j then usage s j + pos_part d - neg_part d else usage s j))
  pub allow_rate_keeps :
      (k : Bytes) (rate : F) (burst : ℤ) (s : S)
      → IsGood s
      → let s' = (cs.allow_rate now k rate burst s).1 in
        IsGood s'
        × ((j : Bytes) → IsLive s j → IsLive s' j)
        × ((j : Bytes) → usage s' j ≡ usage s j)
  -- counts are int64 values
  pub usage_bounded : (s : S) (j : Bytes) → IsGood s → usage s j < 2 ^ 63
