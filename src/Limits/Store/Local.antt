-- ===== src/Limits/Store/Local.antt =====
-- Reconcile and AllowRate of LocalCounterStore, and its counter laws (internal/limits/store.go).
use torana_enterprise.Prelude.{
  ℕ, ◌+◌, ◌-◌, ◌^◌, ◌≤◌, ◌<◌, ◌≡◌, refl, sym, ap, subst, ◌∙◌, Bool, true, false, Option, none, some,
  arith, Bool-cases, inl, inr, if◌then◌else◌,
}
use torana_enterprise.Prelude.Int.{
  ℤ, pos, negsuc, pos_part, neg_part, wrap64, ◌+ℤ◌, ◌<ℤ◌, ltb_ℤ, leb_ℤ,
}
use torana_enterprise.Prelude.Maps.{◌≟◌, ≟_iff, lookup}
use torana_enterprise.Prelude.Bytes.{Bytes, bytes_key}
use torana_enterprise.Prelude.Float.{Float64}
use torana_enterprise.Limits.Types.{Window}
use torana_enterprise.Limits.Store.{
  WindowCounter, LocalCounterStore, local_limit, counter_at, store_counter, reconcile, allow_rate,
  local_store,
}
use torana_enterprise.Limits.Store.Laws.{CounterLaws}
use torana_enterprise.Limits.Store.Quota.{
  tokens, Sane, Live, usage-store_counter, store_counter-IsGood, store_counter-IsLive, IsGood,
  IsLive, usage, reserve-usage,
}

clamped :
    (u : ℕ) (d : ℤ)
    → u + pos_part d < 2 ^ 63
    → neg_part d < 2 ^ 63
    → let x = wrap64 (pos u +ℤ d) in
      (if ltb_ℤ x (pos 0) then pos 0 else x) ≡ pos (u + pos_part d - neg_part d)
unfolding wrap64 ◌+ℤ◌
clamped u (pos n) h k = ground arith
clamped u (negsuc n) h k = ground arith

module _ (fl : Float64) (now : ℕ) where
  -- a live counter is the one that the key has, and all its tokens count
  live_counter :
      (s : LocalCounterStore fl.F) (k : Bytes) (w : Window) (o : Option WindowCounter)
      → lookup k s.counters ≡ o
      → IsGood fl now s
      → IsLive fl now s k
      → (now ≤ (counter_at fl s now k w).expires_at)
        × ((counter_at fl s now k w).used ≡ pos (usage fl now s k))
  unfolding IsLive usage counter_at
  live_counter s k w none e g l = absurd (subst (Live now) e l)
  live_counter s k w (some wc) e g l =
      let l' : Live now (some wc) = subst (Live now) e l in
      let sane : Sane (some wc) = subst Sane e (g.sane k) in simp (e, counter_at) (l', ground arith)

  pub usage-reconcile :
      (k : Bytes) (d : ℤ) (w : Window) (s : LocalCounterStore fl.F)
      → IsGood fl now s
      → IsLive fl now s k
      → usage fl now s k + pos_part d < 2 ^ 63
      → neg_part d < 2 ^ 63
      → let s' = reconcile fl now k d w s in
        IsGood fl now s'
        × ((j : Bytes) → IsLive fl now s j → IsLive fl now s' j)
        × ((j : Bytes)
            → usage fl now s' j
              ≡ (if k ≟ j then usage fl now s j + pos_part d - neg_part d else usage fl now s j))
  unfolding reconcile
  usage-reconcile k d w s g l h m =
      let (x, u) = live_counter s k w _ refl g l in
      let c = clamped (usage fl now s k) d h m in
      let wc : WindowCounter = record {
        used = pos (usage fl now s k + pos_part d - neg_part d);
        expires_at = (counter_at fl s now k w).expires_at;
      } in
      let same : reconcile fl now k d w s ≡ store_counter fl s k wc = simp (u, c) in
      rw same (
        store_counter-IsGood fl now s k wc g (refl, omega arith),
        (λ j. store_counter-IsLive fl now s k wc j x),
        λ j. ground (
          arith,
          usage-store_counter fl now s k wc j,
          (≟_iff k j).0,
          ap (usage fl now s) {x = k} {y = j},
        ),
      )

  pub allow_rate-usage :
      (k : Bytes) (rate : fl.F) (burst : ℤ) (s : LocalCounterStore fl.F)
      → IsGood fl now s
      → let s' = (allow_rate fl now k rate burst s).1 in
        IsGood fl now s'
        × ((j : Bytes) → IsLive fl now s j → IsLive fl now s' j)
        × ((j : Bytes) → usage fl now s' j ≡ usage fl now s j)
  unfolding allow_rate IsLive usage
  allow_rate-usage k rate burst s g = (record { sane = g.sane }, (λ j l. l), λ j. refl)

  pub tokens_bounded : (o : Option WindowCounter) → Sane o → tokens now o < 2 ^ 63
  tokens_bounded none h = omega arith
  tokens_bounded (some wc) h = ground arith

pub charged_if :
    (over b : Bool) (x y n : ℕ)
    → over ≡ false
    → x ≡ y + (if b then (if over then 0 else n) else 0)
    → x ≡ y + (if b then n else 0)
charged_if over b x y n o h = ground arith

pub unchanged_if :
    (over b : Bool) (x y n : ℕ)
    → over ≡ true
    → x ≡ y + (if b then (if over then 0 else n) else 0)
    → x ≡ y
unchanged_if over b x y n o h = ground arith

-- What the rounding of limit / peers gives: for positive operands an int64 that is not negative. A
-- conversion to int64 that saturates has this; where one out of range gives the least int64, it holds
-- but for the limits next to 2^63, which one gateway rounds up to it.
abbrev pub HasQuotas : Float64 → Type 0
HasQuotas fl =
    (limit peers : ℤ)
    → pos 0 <ℤ limit
    → pos 0 <ℤ peers
    → (q : ℕ) × (fl.to_int (fl.ceil (fl.div (fl.of_int limit) (fl.of_int peers))) ≡ pos q)
      × (q < 2 ^ 63)

-- the quota is never negative, also where no peer is counted
pub local_limit-quota :
    (fl : Float64) (limit peers : ℤ)
    → HasQuotas fl
    → pos 0 <ℤ limit
    → (q : ℕ) × (local_limit fl limit peers ≡ pos q) × (q < 2 ^ 63)
unfolding local_limit
local_limit-quota fl limit peers quotas h = elim (Bool-cases (leb_ℤ peers (pos 0))) [
  | inl t ↦ rw (t, local_limit) (quotas limit (pos 1) h (omega arith))
  | inr t ↦ rw (t, local_limit) (quotas limit peers h (ground arith))
]

-- The local store keeps the laws of a counter store, at every time.
unfoldable pub local_laws :
    (fl : Float64) (now : ℕ) → HasQuotas fl → CounterLaws (local_store fl) now
unfolding usage
local_laws fl now quotas = record {
  IsGood = IsGood fl now;
  IsLive = IsLive fl now;
  usage = usage fl now;
  reserve_granted = λ k n limit w s g h e.
      let (q, at, below) = local_limit-quota fl limit s.peer_count quotas h in
      let (r, a, b, c, d) = reserve-usage fl now k n q limit w s g at below in
      (a, b, c, λ j. charged_if _ (k ≟ j) _ _ n (sym r ∙ e) (d j));
  reserve_refused = λ k n limit w s g h e.
      let (q, at, below) = local_limit-quota fl limit s.peer_count quotas h in
      let (r, a, b, c, d) = reserve-usage fl now k n q limit w s g at below in
      (a, c, λ j. unchanged_if _ (k ≟ j) _ _ n (sym r ∙ e) (d j));
  reconcile_live = usage-reconcile fl now;
  allow_rate_keeps = allow_rate-usage fl now;
  usage_bounded = λ s j g. tokens_bounded fl now (lookup j s.counters) (g.sane j);
}
