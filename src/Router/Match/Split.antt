-- ===== src/Router/Match/Split.antt =====
-- The weighted split of Match (internal/router/router.go), over as many matches in a row as the
-- weights sum to.
use torana_enterprise.Prelude.{
  ℕ, zero, suc, ◌+◌, ◌%◌, ◌^◌, ◌<◌, ◌≤◌, ◌≡◌, refl, ◌∙◌, ap, Bool, true, false, List, [], ◌∷◌,
  Option, some, All, arith, if◌then◌else◌,
}
use torana_enterprise.Prelude.Int.{
  ℤ, pos, negsuc, pos_part, neg_part, wrap64, wrap64_id, ◌+ℤ◌, ltb_ℤ, eq_of_parts,
}
use torana_enterprise.Prelude.Counting.{count, count-add, count_ext, count_const, count_rotate}
use torana_enterprise.Config.Types.{UpstreamCluster}
use torana_enterprise.Router.Types.{WeightedTarget, CompiledRoute}
use torana_enterprise.Router.Match.{pick, or_upstream, select_from, select}

-- no weight is negative
abbrev pub IsWeight : WeightedTarget → Type 0
IsWeight t = neg_part t.weight ≡ 0

-- the weights of the targets that pass a test, and of them all
pub weight_of : (Option UpstreamCluster → Bool) → List WeightedTarget → ℕ
weight_of f [] = 0
weight_of f (t ∷ ts) = (if f (some t.upstream) then pos_part t.weight else 0) + weight_of f ts

unfoldable pub weights : List WeightedTarget → ℕ
weights [] = 0
weights (t ∷ ts) = pos_part t.weight + weights ts

sum_weight :
    (a : ℕ) (w : ℤ)
    → neg_part w ≡ 0
    → a + pos_part w < 2 ^ 63
    → wrap64 (pos a +ℤ w) ≡ pos (a + pos_part w)
unfolding ◌+ℤ◌
sum_weight a (pos n) e l =
    ap wrap64 {x = pos a +ℤ pos n} {y = pos (a + n)} (eq_of_parts _ _ (ground arith))
    ∙ wrap64_id (pos (a + n)) l
sum_weight a (negsuc n) e l = cc

pick-this :
    (a v : ℕ) (t : WeightedTarget) (ts : List WeightedTarget)
    → neg_part t.weight ≡ 0
    → a + pos_part t.weight < 2 ^ 63
    → v < pos_part t.weight
    → pick (pos (a + v)) (pos a) (t ∷ ts) ≡ some t.upstream
unfolding pick
pick-this a v t ts n l h = rw (sum_weight a t.weight n l) (ground arith)

pick-later :
    (a k : ℕ) (t : WeightedTarget) (ts : List WeightedTarget)
    → neg_part t.weight ≡ 0
    → a + pos_part t.weight < 2 ^ 63
    → a + pos_part t.weight ≤ k
    → pick (pos k) (pos a) (t ∷ ts) ≡ pick (pos k) (pos (a + pos_part t.weight)) ts
unfolding pick
pick-later a k t ts n l h =
    let rest : Option UpstreamCluster = pick (pos k) (pos (a + pos_part t.weight)) ts in
    let no : ltb_ℤ (pos k) (pos (a + pos_part t.weight)) ≡ false = ground arith in
    rw (sum_weight a t.weight n l) (ap (λ b. if b then some t.upstream else rest) no)

pick-next :
    (a v : ℕ) (t : WeightedTarget) (ts : List WeightedTarget)
    → neg_part t.weight ≡ 0
    → a + pos_part t.weight < 2 ^ 63
    → pick (pos (a + (pos_part t.weight + v))) (pos a) (t ∷ ts)
      ≡ pick (pos (a + pos_part t.weight + v)) (pos (a + pos_part t.weight)) ts
pick-next a v t ts n l =
    ap (λ k. pick (pos k) (pos a) (t ∷ ts)) {x = a + (pos_part t.weight + v)}
      {y = a + pos_part t.weight + v} (omega arith)
    ∙ pick-later a (a + pos_part t.weight + v) t ts n l (omega arith)

pick-count :
    (f : Option UpstreamCluster → Bool) (a : ℕ) (pool : List WeightedTarget)
    → All IsWeight pool
    → a + weights pool < 2 ^ 63
    → count (weights pool) (λ v. f (pick (pos (a + v)) (pos a) pool)) ≡ weight_of f pool
unfolding weights weight_of count
pick-count f a [] h l = refl
pick-count f a (t ∷ ts) (n, h) l =
    let w = pos_part t.weight in
    let p : ℕ → Bool = λ v. f (pick (pos (a + v)) (pos a) (t ∷ ts)) in
    let split : count (w + weights ts) p ≡ count w p + count (weights ts) (λ i. p (w + i)) =
      count-add w (weights ts) p in
    let this : count w p ≡ (if f (some t.upstream) then w else 0) =
      count_const w p (f (some t.upstream)) (λ v m. ap f (pick-this a v t ts n (omega arith) m)) in
    let next : count (weights ts) (λ i. p (w + i))
        ≡ count (weights ts) (λ v. f (pick (pos (a + w + v)) (pos (a + w)) ts)) =
      count_ext (weights ts) _ _ (λ v m. ap f (pick-next a v t ts n (omega arith))) in
    let rest : count (weights ts) (λ v. f (pick (pos (a + w + v)) (pos (a + w)) ts))
        ≡ weight_of f ts =
      pick-count f (a + w) ts h (omega arith) in
    rw (split, this, next, rest) refl

weight_of_ext :
    (f g : Option UpstreamCluster → Bool) (pool : List WeightedTarget)
    → ((u : UpstreamCluster) → f (some u) ≡ g (some u))
    → weight_of f pool ≡ weight_of g pool
unfolding weight_of
weight_of_ext f g [] h = refl
weight_of_ext f g (t ∷ ts) h = rw (h t.upstream, weight_of_ext f g ts h) refl

select_from_next :
    (c : ℕ) (total : ℤ) (d : Option UpstreamCluster) (pool : List WeightedTarget)
    → total ≡ pos (weights pool)
    → 0 < weights pool
    → suc c < 2 ^ 64
    → (select_from c total d pool).0
      ≡ or_upstream (pick (pos (suc c % weights pool)) (pos 0) pool) d
unfolding select_from weights
select_from_next c total d [] e h l = grind arith
select_from_next c total d (t ∷ ts) e h l =
    let w : ℕ = pos_part t.weight + weights ts in
    let some_weight : ltb_ℤ (pos 0) (pos w) ≡ true = ground arith in
    let no_wrap : (c + 1) % 2 ^ 64 ≡ suc c = ground arith in rw (e, some_weight, no_wrap) refl

-- the counter after this many matches of a route in a row
unfoldable pub counter_after : ℕ → CompiledRoute → ℕ → ℕ
counter_after c cr zero = c
counter_after c cr (suc i) = (select (counter_after c cr i) cr).1

select_from_counts :
    (c : ℕ) (total : ℤ) (d : Option UpstreamCluster) (pool : List WeightedTarget)
    → total ≡ pos (weights pool)
    → 0 < weights pool
    → suc c < 2 ^ 64
    → (select_from c total d pool).1 ≡ suc c
unfolding select_from weights
select_from_counts c total d [] e h l = grind arith
select_from_counts c total d (t ∷ ts) e h l =
    let w : ℕ = pos_part t.weight + weights ts in
    let some_weight : ltb_ℤ (pos 0) (pos w) ≡ true = ground arith in
    let no_wrap : (c + 1) % 2 ^ 64 ≡ suc c = ground arith in rw (e, some_weight) no_wrap

counter_after-add :
    (c : ℕ) (cr : CompiledRoute) (i : ℕ)
    → cr.total_weight ≡ pos (weights cr.weighted_pool)
    → 0 < weights cr.weighted_pool
    → c + i < 2 ^ 64
    → counter_after c cr i ≡ c + i
unfolding counter_after select
counter_after-add c cr zero e h l = omega arith
counter_after-add c cr (suc i) e h l =
    ap (λ j. (select j cr).1) (counter_after-add c cr i e h (omega arith))
    ∙ (select_from_counts (c + i) cr.total_weight cr.upstream cr.weighted_pool e h (omega arith)
        ∙ omega arith)

-- For a route whose weights are not negative and sum to the total that was compiled, a positive
-- number below 2^63: of that many matches in a row, each from the counter that the one before it left
-- and the first from one that does not reach 2^64 meanwhile, those whose upstream passes a test are as
-- many as the weights of the targets that pass it.
pub select-count :
    (f : Option UpstreamCluster → Bool) (c : ℕ) (cr : CompiledRoute)
    → All IsWeight cr.weighted_pool
    → cr.total_weight ≡ pos (weights cr.weighted_pool)
    → 0 < weights cr.weighted_pool
    → weights cr.weighted_pool < 2 ^ 63
    → c + weights cr.weighted_pool < 2 ^ 64
    → count (weights cr.weighted_pool) (λ i. f (select (counter_after c cr i) cr).0)
      ≡ weight_of f cr.weighted_pool
unfolding select or_upstream
select-count f c cr n e h l m =
    let pool = cr.weighted_pool in
    let g : Option UpstreamCluster → Bool = λ o. f (or_upstream o cr.upstream) in
    let chosen : ℕ → Bool = λ v. g (pick (pos v) (pos 0) pool) in
    let each : count (weights pool) (λ i. f (select (counter_after c cr i) cr).0)
        ≡ count (weights pool) (λ i. chosen ((suc c + i) % weights pool)) =
      count_ext (weights pool) _ _ (λ i k.
        ap (λ j. f (select j cr).0) (counter_after-add c cr i e h (omega arith))
        ∙ ap f (select_from_next (c + i) cr.total_weight cr.upstream pool e h (omega arith))
        ∙ ap (λ k. chosen (k % weights pool)) {x = suc (c + i)} {y = suc c + i} (omega arith)) in
    let from_zero : count (weights pool) chosen
        ≡ count (weights pool) (λ v. g (pick (pos (0 + v)) (pos 0) pool)) =
      count_ext (weights pool) _ _ (λ v k. ap chosen {x = v} {y = 0 + v} (omega arith)) in
    each
    ∙ count_rotate (weights pool) (suc c) chosen h
    ∙ from_zero
    ∙ pick-count g 0 pool n (omega arith)
    ∙ weight_of_ext g f pool (λ u. refl)
