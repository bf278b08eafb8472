-- ===== src/Limits/Limiter/Accounts.antt =====
-- The counters under the loops of PreCheck and Reconcile (internal/limits/limiter.go).
use torana_enterprise.Prelude.{
  ℕ, ◌+◌, ◌^◌, ◌<◌, ◌≡◌, refl, ◌∙◌, true, false, List, [], ◌∷◌, ◌++◌, Option, none, some, All,
  All-map, All-append, inl, inr, arith, Bool-cases, if◌then◌else◌,
}
use torana_enterprise.Prelude.Int.{ℤ, pos, pos_part, neg_part, wrap64, ◌-ℤ◌, ◌<ℤ◌, leb_ℤ}
use torana_enterprise.Prelude.Maps.{◌≟◌, lookup}
use torana_enterprise.Prelude.Bytes.{Bytes, bytes_key}
use torana_enterprise.Prelude.Float.{Float64}
use torana_enterprise.Limits.Types.{Window, DimensionKeys, BudgetRule, refused}
use torana_enterprise.Limits.Store.{CounterStore}
use torana_enterprise.Limits.Store.Laws.{CounterLaws}
use torana_enterprise.Limits.Limiter

neg_amount :
    (n : ℕ)
    → n < 2 ^ 63
    → (pos_part (wrap64 (pos 0 -ℤ pos n)) ≡ 0) × (neg_part (wrap64 (pos 0 -ℤ pos n)) ≡ n)
unfolding wrap64 ◌-ℤ◌
neg_amount n h = ground arith

module _ (fl : Float64) {S : Type 0} (cs : CounterStore fl.F S) (format : Bytes → ℕ → Bytes)
    (now : ℕ) (laws : CounterLaws cs now) (keys : DimensionKeys) where
  open laws use {IsGood, IsLive, usage}

  abbrev key_of : Window → ℕ → Bytes
  key_of w at = Limiter.token_key fl cs format keys w at

  -- what `n` tokens for each of the windows add to the count at a key
  unfoldable pub charge : ℕ → ℕ → Bytes → List Window → ℕ
  charge at n j [] = 0
  charge at n j (w ∷ ws) = (if key_of w at ≟ j then n else 0) + charge at n j ws

  charge-snoc :
      (at n : ℕ) (j : Bytes) (ws : List Window) (w : Window)
      → charge at n j (ws ++ w ∷ []) ≡ charge at n j ws + (if key_of w at ≟ j then n else 0)
  unfolding charge
  charge-snoc at n j [] w = omega arith
  charge-snoc at n j (v ∷ ws) w = omega (arith, charge-snoc at n j ws w)

  -- One window given back.
  give_back :
      (n : ℕ) (w : Window) (ws : List Window) (s : S) (base : Bytes → ℕ)
      → n < 2 ^ 63
      → IsGood s
      → IsLive s (key_of w now)
      → ((j : Bytes) → usage s j ≡ base j + charge now n j (w ∷ ws))
      → let s' = cs.reconcile now (key_of w now) (wrap64 (pos 0 -ℤ pos n)) w s in
        IsGood s'
        × ((j : Bytes) → IsLive s j → IsLive s' j)
        × ((j : Bytes) → usage s' j ≡ base j + charge now n j ws)
  unfolding charge
  give_back n w ws s base h g l u =
      let neg = neg_amount n h in
      let (g', l', u') =
        laws.reconcile_live (key_of w now) (wrap64 (pos 0 -ℤ pos n)) w s g l
          (omega (arith, neg.0, laws.usage_bounded s (key_of w now) g)) (omega (arith, neg.1)) in
      (g', l', λ j. ground (arith, u' j, u j, neg.0, neg.1))

  pub rollback-usage :
      (n : ℕ) (ws : List Window) (s : S) (base : Bytes → ℕ)
      → n < 2 ^ 63
      → IsGood s
      → All (λ w. IsLive s (key_of w now)) ws
      → ((j : Bytes) → usage s j ≡ base j + charge now n j ws)
      → let s' = Limiter.rollback fl cs format keys (pos n) now ws s in
        IsGood s' × ((j : Bytes) → usage s' j ≡ base j)
  unfolding Limiter.rollback charge
  rollback-usage n [] s base h g l u = (g, λ j. omega (arith, u j))
  rollback-usage n (w ∷ ws) s base h g (l, ls) u =
      let (g', l', u') = give_back n w ws s base h g l u in
      rollback-usage n ws _ base h g' (All-map (λ v. l' (key_of v now)) ws ls) u'

  -- The windows of `done` are reserved, over the counts of `base`.
  pub record IsCharged (n : ℕ) (base : Bytes → ℕ) (done : List Window) (s : S) : Type 0 where
    pub good : IsGood s
    pub live : All (λ w. IsLive s (key_of w now)) done
    pub charged : (j : Bytes) → usage s j ≡ base j + charge now n j done

  -- What the loop over the windows leaves: the windows that it granted are charged, or nothing is.
  unfoldable pub Leaves : ℕ → (Bytes → ℕ) → Limiter.Reserved → S → Type 0
  Leaves n base (Limiter.granted ws) s = IsCharged n base ws s
  Leaves n base (Limiter.exceeded e) s = IsGood s × ((j : Bytes) → usage s j ≡ base j)

  -- A window granted.
  granted-IsCharged :
      (n : ℕ) (base : Bytes → ℕ) (done : List Window) (s : S) (w : Window) (limit : ℤ)
      → IsCharged n base done s
      → pos 0 <ℤ limit
      → refused (cs.reserve now (key_of w now) (pos n) limit w s).0 ≡ false
      → IsCharged n base (done ++ w ∷ []) (cs.reserve now (key_of w now) (pos n) limit w s).1
  granted-IsCharged n base done s w limit c p e =
      let (g, l, keep, u) = laws.reserve_granted (key_of w now) n limit w s c.good p e in
      record {
        good = g;
        live =
            All-append (λ v. IsLive _ (key_of v now)) done (w ∷ [])
              (All-map (λ v. keep (key_of v now)) done c.live) (l, tt);
        charged = λ j. omega (arith, u j, c.charged j, charge-snoc now n j done w);
      }

  -- A window refused: what was granted is given back.
  refused-usage :
      (n : ℕ) (base : Bytes → ℕ) (done : List Window) (s : S) (w : Window) (limit : ℤ)
      → n < 2 ^ 63
      → IsCharged n base done s
      → pos 0 <ℤ limit
      → refused (cs.reserve now (key_of w now) (pos n) limit w s).0 ≡ true
      → let s' =
          Limiter.rollback fl cs format keys
            (pos n)
            now
            done
            (cs.reserve now (key_of w now) (pos n) limit w s).1 in
        IsGood s' × ((j : Bytes) → usage s' j ≡ base j)
  refused-usage n base done s w limit h c p e =
      let (g, keep, u) = laws.reserve_refused (key_of w now) n limit w s c.good p e in
      rollback-usage n done _ base h g (All-map (λ v. keep (key_of v now)) done c.live)
        (λ j. u j ∙ c.charged j)

  after_reserve-Leaves :
      (n : ℕ) (base : Bytes → ℕ) (done : List Window) (s : S) (w : Window) (limit : ℤ)
      (go_on : Unit {0} → S → Limiter.Reserved × S)
      → n < 2 ^ 63
      → IsCharged n base done s
      → pos 0 <ℤ limit
      → ((s' : S)
          → IsCharged n base (done ++ w ∷ []) s'
          → Leaves n base (go_on tt s').0 (go_on tt s').1)
      → let r =
          Limiter.after_reserve fl cs format keys
            (pos n)
            now
            w
            limit
            done
            (cs.reserve now (key_of w now) (pos n) limit w s)
            go_on in
        Leaves n base r.0 r.1
  unfolding Limiter.after_reserve Leaves
  after_reserve-Leaves n base done s w limit go_on h c p ih =
      elim (Bool-cases (refused (cs.reserve now (key_of w now) (pos n) limit w s).0)) [
        | inl t ↦ rw t (refused-usage n base done s w limit h c p t)
        | inr t ↦ rw t (ih _ (granted-IsCharged n base done s w limit c p t))
      ]

  window-Leaves :
      (rule : BudgetRule) (n : ℕ) (base : Bytes → ℕ) (w : Window) (ws done : List Window) (s : S)
      (limit : Option ℤ)
      → lookup w rule.limits ≡ limit
      → n < 2 ^ 63
      → IsCharged n base done s
      → ((done' : List Window) (s' : S)
          → IsCharged n base done' s'
          → let r = Limiter.reserve_windows fl cs format rule keys (pos n) now ws done' s' in
            Leaves n base r.0 r.1)
      → let r = Limiter.reserve_windows fl cs format rule keys (pos n) now (w ∷ ws) done s in
        Leaves n base r.0 r.1
  unfolding Limiter.reserve_windows
  window-Leaves rule n base w ws done s none e h c ih =
      rw (e, Limiter.reserve_windows) (ih done s c)
  window-Leaves rule n base w ws done s (some limit) e h c ih =
      elim (Bool-cases (leb_ℤ limit (pos 0))) [
        | inl t ↦ rw (e, Limiter.reserve_windows) (rw t (ih done s c))
        | inr t ↦
            rw (e, Limiter.reserve_windows)
              (rw t (
                after_reserve-Leaves n base done s w limit
                  (λ _ s'.
                    Limiter.reserve_windows fl cs format rule keys (pos n) now ws (done ++ w ∷ [])
                      s')
                  h c (ground arith) (λ s'. ih (done ++ w ∷ []) s')))
      ]

  -- Over a good store with nothing reserved the loop over the windows leaves the windows that it
  -- granted charged, or the counts as they were.
  pub reserve_windows-Leaves :
      (rule : BudgetRule) (n : ℕ) (base : Bytes → ℕ) (ws done : List Window) (s : S)
      → n < 2 ^ 63
      → IsCharged n base done s
      → let r = Limiter.reserve_windows fl cs format rule keys (pos n) now ws done s in
        Leaves n base r.0 r.1
  reserve_windows-Leaves rule n base [] done s h c = unfold Limiter.reserve_windows Leaves in c
  reserve_windows-Leaves rule n base (w ∷ ws) done s h c =
      window-Leaves rule n base w ws done s _ refl h c
        (λ done' s'. reserve_windows-Leaves rule n base ws done' s' h)
