-- ===== src/Limits/Store.antt =====
-- CounterStore and LocalCounterStore of internal/limits/store.go. One reading of the clock, `now`,
-- stands for those of one call. Each call is one step: the locks of the source make it atomic.
pub mod Laws
pub mod Quota
pub mod Local
use torana_enterprise.Prelude.{
  ℕ, ◌+◌, Bool, true, false, List, [], ◌∷◌, Option, none, some, ltb, if◌then◌else◌,
}
use torana_enterprise.Prelude.Int.{ℤ, pos, wrap64, sub_ℕ, ◌+ℤ◌, ◌-ℤ◌, leb_ℤ, ltb_ℤ}
use torana_enterprise.Prelude.Maps.{lookup, insert, delete}
use torana_enterprise.Prelude.Bytes.{Bytes, bytes_key}
use torana_enterprise.Prelude.Float.{Float64}
use torana_enterprise.Limits.Types.{
  Window, second, duration, Reason, no_reason, local_quota, ReservationResult,
}
use torana_enterprise.Limits.TokenBucket.{TokenBucket, new_token_bucket, allow_n}

-- The CounterStore interface over a state `S`: the answer, or none for an error, and the new state.
pub record CounterStore (F S : Type 0) : Type 0 where
  pub reserve : ℕ → Bytes → ℤ → ℤ → Window → S → Option ReservationResult × S
  pub reconcile : ℕ → Bytes → ℤ → Window → S → S
  pub allow_rate : ℕ → Bytes → F → ℤ → S → Option (Bool × ℤ) × S

pub record WindowCounter : Type 0 where
  pub used : ℤ
  pub expires_at : ℕ

pub record LocalCounterStore (F : Type 0) : Type 0 where
  pub counters : List (Bytes × WindowCounter)
  pub buckets : List (Bytes × TokenBucket F)
  -- what LivePeerCount answers
  pub peer_count : ℤ

module _ (fl : Float64) where
  open fl use {F, of_int, to_int, div, ceil}

  -- the share of one gateway
  unfoldable pub local_limit : ℤ → ℤ → ℤ
  local_limit limit peer_count =
      to_int (
        ceil (div (of_int limit) (of_int (if leb_ℤ peer_count (pos 0) then pos 1 else peer_count))))

  -- getOrCreateCounter; a new counter is stored by the caller
  unfoldable pub counter_at : LocalCounterStore F → ℕ → Bytes → Window → WindowCounter
  counter_at s now key w = elim (lookup key s.counters) [
    | some wc ↦ wc
    | none ↦ record { used = pos 0; expires_at = now + duration w }
  ]

  unfoldable pub renew : ℕ → Window → WindowCounter → WindowCounter
  renew now w wc =
      if ltb wc.expires_at now then record { used = pos 0; expires_at = now + duration w } else wc

  unfoldable pub store_counter : LocalCounterStore F → Bytes → WindowCounter → LocalCounterStore F
  store_counter s key wc = record s { counters = insert key wc s.counters }

  retry_after : ℕ → WindowCounter → ℤ
  retry_after now wc =
      let wait = sub_ℕ wc.expires_at now in if ltb_ℤ wait (pos second) then pos second else wait

  -- the second half of Reserve, on a counter that has not expired
  unfoldable pub reserve_counter :
      ℕ → ℤ → ℤ → ℤ → Window → WindowCounter → ReservationResult × WindowCounter
  unfolding retry_after
  reserve_counter now quota amount limit w wc =
      let remaining = wrap64 (quota -ℤ wc.used) in
      if ltb_ℤ remaining amount
      then (
        record {
          allowed = false;
          reason = local_quota w wc.used quota amount;
          window = w;
          limit = limit;
          remaining = if ltb_ℤ remaining (pos 0) then pos 0 else remaining;
          retry_after = retry_after now wc;
        },
        wc,
      )
      else let used = wrap64 (wc.used +ℤ amount) in
        (
          record {
            allowed = true;
            reason = no_reason;
            window = w;
            limit = limit;
            remaining = wrap64 (quota -ℤ used);
            retry_after = pos 0;
          },
          record wc { used = used },
        )

  unfoldable pub reserve :
      ℕ
      → Bytes
      → ℤ
      → ℤ
      → Window
      → LocalCounterStore F
      → Option ReservationResult × LocalCounterStore F
  reserve now key amount limit w s =
      let r =
        reserve_counter now (local_limit limit s.peer_count) amount limit w
          (renew now w (counter_at s now key w)) in
      (some r.0, store_counter s key r.1)

  unfoldable pub reconcile : ℕ → Bytes → ℤ → Window → LocalCounterStore F → LocalCounterStore F
  reconcile now key delta w s =
      let wc = counter_at s now key w in
      let used = wrap64 (wc.used +ℤ delta) in
      store_counter s key (record wc { used = if ltb_ℤ used (pos 0) then pos 0 else used })

  bucket_at : LocalCounterStore F → ℕ → Bytes → F → ℤ → TokenBucket F
  bucket_at s now key rate burst = elim (lookup key s.buckets) [
    | some tb ↦ tb
    | none ↦ new_token_bucket fl rate burst now
  ]

  unfoldable pub allow_rate :
      ℕ → Bytes → F → ℤ → LocalCounterStore F → Option (Bool × ℤ) × LocalCounterStore F
  unfolding bucket_at
  allow_rate now key rate burst s =
      let (allowed, retry, tb) = allow_n fl (bucket_at s now key rate burst) now (pos 1) in
      (some (allowed, retry), record s { buckets = insert key tb s.buckets })

  -- the counters that Sync keeps
  live_counters : ℕ → List (Bytes × WindowCounter) → List (Bytes × WindowCounter)
  live_counters now [] = []
  live_counters now ((k, wc) ∷ m) =
      let rest = live_counters now m in if ltb wc.expires_at now then rest else (k, wc) ∷ rest

  unfoldable pub sync : ℕ → LocalCounterStore F → LocalCounterStore F
  unfolding live_counters
  sync now s = record s { counters = live_counters now s.counters }

  abbrev pub local_store : CounterStore F (LocalCounterStore F)
  local_store = record { reserve = reserve; reconcile = reconcile; allow_rate = allow_rate }
