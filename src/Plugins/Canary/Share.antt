-- ===== src/Plugins/Canary/Share.antt =====
-- The share of the requests that a canary gets (internal/plugins/manager/canary.go).
use torana_enterprise.Prelude.{
  ℕ, ◌+◌, ◌-◌, ◌≤◌, ◌<◌, ◌≡◌, refl, ◌∙◌, ap, true, false, Option, none, some, arith, ltb,
  if◌then◌else◌,
}
use torana_enterprise.Prelude.Int.{ℤ, pos, negsuc, pos_part, ltb_ℤ}
use torana_enterprise.Prelude.Bytes.{Bytes}
use torana_enterprise.Prelude.Counting.{count, count-add, count_const, count_ext}
use torana_enterprise.Pipeline.Chain.{Filter}
use torana_enterprise.Plugins.Canary.{
  CanaryFilter, new_canary_filter, set_canary, promoted, promote_canary, clear_canary, rolled,
  should_route_canary,
}

abbrev pub IsPercent : ℤ → Type 0
IsPercent (pos n) = n ≤ 100
IsPercent (negsuc n) = ⊥

clamped :
    (n : ℤ)
    → IsPercent (if ltb_ℤ n (pos 0) then pos 0 else if ltb_ℤ (pos 100) n then pos 100 else n)
clamped (pos n) = ground arith
clamped (negsuc n) = ground arith

-- Of the numbers below n + m, n are below n.
below : (n m : ℕ) → count (n + m) (λ i. ltb i n) ≡ n
below n m =
    count-add n m (λ i. ltb i n)
    ∙ ground (
      arith,
      count_const n (λ i. ltb i n) true (λ i l. ground arith),
      count_const m (λ i. ltb (n + i) n) false (λ i l. ground arith),
    )

module _ {W : Type 0} where
  -- One operation on the filter.
  pub data Steps : CanaryFilter W → CanaryFilter W → Type 0 where
    sets : (c : CanaryFilter W) (f : Option (Filter W)) (n : ℤ) → Steps c (set_canary f n c)
    promotes : (c : CanaryFilter W) → Steps c (promote_canary c).1
    clears : (c : CanaryFilter W) → Steps c (clear_canary c).1

  -- The states that operations make of a new filter.
  pub data Reaches : CanaryFilter W → Type 0 where
    fresh : (id : Bytes) (f : Option (Filter W)) → Reaches (new_canary_filter id f)
    onward : (c d : CanaryFilter W) → Reaches c → Steps c d → Reaches d

  fresh-IsPercent :
      (id : Bytes) (f : Option (Filter W)) → IsPercent (new_canary_filter id f).canary_percent
  unfolding new_canary_filter
  fresh-IsPercent id none = omega arith
  fresh-IsPercent id (some f) = omega arith

  promoted-IsPercent :
      (o : Option (Filter W)) (c : CanaryFilter W)
      → IsPercent c.canary_percent
      → IsPercent (promoted o c).canary_percent
  unfolding promoted
  promoted-IsPercent none c h = h
  promoted-IsPercent (some f) c h = omega arith

  IsPercent-Steps :
      (c d : CanaryFilter W) → Steps c d → IsPercent c.canary_percent → IsPercent d.canary_percent
  IsPercent-Steps c d (sets _ f n) h = unfold set_canary in clamped n
  IsPercent-Steps c d (promotes _) h = unfold promote_canary in promoted-IsPercent c.canary c h
  IsPercent-Steps c d (clears _) h = unfold clear_canary in omega arith

  canary_percent-IsPercent : (c : CanaryFilter W) → Reaches c → IsPercent c.canary_percent
  canary_percent-IsPercent c (fresh id f) = fresh-IsPercent id f
  canary_percent-IsPercent c (onward b _ r s) = IsPercent-Steps b c s (canary_percent-IsPercent b r)

  at_percent :
      (c : CanaryFilter W) (n : ℕ)
      → c.canary_percent ≡ pos n
      → n ≤ 100
      → (i : ℕ) → i < 100
      → should_route_canary (some i) c ≡ ltb i n
  unfolding should_route_canary rolled
  at_percent c n e h i l = simp e (ground (arith, h, l))

  share_of :
      (c : CanaryFilter W) (p : ℤ)
      → c.canary_percent ≡ p
      → IsPercent p
      → count 100 (λ i. should_route_canary (some i) c) ≡ pos_part p
  share_of c (pos n) e h =
      count_ext 100 _ (λ i. ltb i n) (at_percent c n e h)
      ∙ ap (λ k. count k (λ i. ltb i n)) {x = 100} {y = n + (100 - n)} (omega (arith, h))
      ∙ below n (100 - n)
  share_of c (negsuc n) e h = absurd h

  -- Whatever operations made a canary filter, its percentage is between 0 and 100, and of the hundred
  -- numbers that the random source can give, as many as the percentage says route to the canary.
  pub should_route_canary-share :
      (c : CanaryFilter W)
      → Reaches c
      → IsPercent c.canary_percent
        × (count 100 (λ i. should_route_canary (some i) c) ≡ pos_part c.canary_percent)
  should_route_canary-share c r =
      let p = canary_percent-IsPercent c r in (p, share_of c c.canary_percent refl p)
