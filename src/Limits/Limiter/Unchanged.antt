-- ===== src/Limits/Limiter/Unchanged.antt =====
-- What PreCheck notes of a reservation, and Reconcile of the number that was reserved
-- (internal/limits/limiter.go).
use torana_enterprise.Prelude.{
  ℕ, ◌≡◌, refl, ◌∙◌, ◌⊎◌, inl, inr, Bool, List, [], ◌∷◌, Option, none, some, arith, All, All-map,
  Bool-cases,
}
use torana_enterprise.Prelude.Int.{ℤ, pos, wrap64, ◌-ℤ◌, ltb_ℤ, IsInt64}
use torana_enterprise.Prelude.Maps.{≟_refl, lookup, lookup-insert_self, lookup-delete}
use torana_enterprise.Prelude.Bytes.{Bytes, bytes_key}
use torana_enterprise.Prelude.Float.{Float64}
use torana_enterprise.Limits.Types.{
  Window, DimensionKeys, BudgetRule, RateLimitRule, Reservation, RateLimitError,
}
use torana_enterprise.Limits.Store.{CounterStore}
use torana_enterprise.Limits.Store.Laws.{CounterLaws}
use torana_enterprise.Limits.Limiter
use torana_enterprise.Limits.Limiter.{Limiter}

no_difference : (n : ℤ) → IsInt64 n → wrap64 (n -ℤ n) ≡ pos 0
unfolding wrap64 ◌-ℤ◌
no_difference n h = ground arith

module _ (fl : Float64) {S : Type 0} (cs : CounterStore fl.F S) (format : Bytes → ℕ → Bytes)
    (now : ℕ) (laws : CounterLaws cs now) where
  open laws use {IsGood, IsLive, usage}

  -- the windows of a reservation have their counters
  abbrev pub IsHeld : S → Reservation → Type 0
  IsHeld s r = All (λ w. IsLive s (Limiter.token_key fl cs format r.keys w r.created_at)) r.windows

  -- A settlement by nothing leaves the counts.
  settle_nothing :
      (keys : DimensionKeys) (at : ℕ) (ws : List Window) (s : S)
      → IsGood s
      → All (λ w. IsLive s (Limiter.token_key fl cs format keys w at)) ws
      → (j : Bytes) → usage (Limiter.settle fl cs format keys at (pos 0) now ws s) j ≡ usage s j
  unfolding Limiter.settle
  settle_nothing keys at [] s g l j = refl
  settle_nothing keys at (w ∷ ws) s g (l, ls) j =
      let k = Limiter.token_key fl cs format keys w at in
      let (g', l', u) =
        laws.reconcile_live k (pos 0) w s g l (omega (arith, laws.usage_bounded s k g))
          (omega arith) in
      settle_nothing keys at ws (cs.reconcile now k (pos 0) w s) g'
        (All-map (λ v. l' (Limiter.token_key fl cs format keys v at)) ws ls) j
      ∙ ground (arith, u j)

  -- Reconcile of the reserved number, whether the limiter holds the reservation or not.
  reconcile_found :
      (l : Limiter fl.F S) (id : Bytes) (n : ℤ) (o : Option Reservation)
      → lookup id l.reservations ≡ o
      → ((r : Reservation) → o ≡ some r → (r.reserved_tokens ≡ n) × IsHeld l.store r)
      → IsInt64 n
      → IsGood l.store
      → let l' = (Limiter.settle_found fl cs format l id n now o).1 in
        (lookup id l'.reservations ≡ none) × ((j : Bytes) → usage l'.store j ≡ usage l.store j)
  unfolding Limiter.settle_found
  reconcile_found l id n none e held h g = (e, λ j. refl)
  reconcile_found l id n (some r) e held h g =
      let (same, live) = held r refl in
      (
        lookup-delete id id l.reservations ∙ rw (≟_refl id) refl,
        simp (same, no_difference n h)
            (settle_nothing r.keys r.created_at r.windows l.store g live),
      )

  -- Reconcile of the reserved number leaves the counts as they are, and the limiter does not hold the
  -- reservation afterwards.
  pub reconcile_same :
      (l : Limiter fl.F S) (id : Bytes) (n : ℤ)
      → ((r : Reservation)
          → lookup id l.reservations ≡ some r
          → (r.reserved_tokens ≡ n) × IsHeld l.store r)
      → IsInt64 n
      → IsGood l.store
      → let l' = (Limiter.reconcile fl cs format l id n now).1 in
        (lookup id l'.reservations ≡ none) × ((j : Bytes) → usage l'.store j ≡ usage l.store j)
  unfolding Limiter.reconcile
  reconcile_same l id n held h g = reconcile_found l id n (lookup id l.reservations) refl held h g

pub reconcile_absent :
    (fl : Float64) {S : Type 0} (cs : CounterStore fl.F S) (format : Bytes → ℕ → Bytes)
    (l : Limiter fl.F S) (id : Bytes) (n : ℤ) (now : ℕ)
    → lookup id l.reservations ≡ none
    → (Limiter.reconcile fl cs format l id n now).1 ≡ l
unfolding Limiter.reconcile Limiter.settle_found
reconcile_absent fl cs format l id n now e = simp (e, Limiter.settle_found) refl

module _ (fl : Float64) {S : Type 0} (cs : CounterStore fl.F S) (format : Bytes → ℕ → Bytes)
    (keys : DimensionKeys) (amount : ℤ) (now : ℕ) (id : Bytes) where
  -- A reservation bears the identifier drawn; the limiter holds it under this one, with the amount, or
  -- holds none there.
  abbrev pub Notes : (Reservation ⊎ RateLimitError) × Limiter fl.F S → Type 0
  Notes (inr e, l) = Unit
  Notes (inl r, l) =
      (r.id ≡ id)
      × ((lookup id l.reservations ≡ none)
          ⊎ ((lookup id l.reservations ≡ some r) × (r.reserved_tokens ≡ amount)))

  finish-Notes :
      (l : Limiter fl.F S) (r : Limiter.Reserved) (s : S)
      → Notes (Limiter.finish fl cs format l keys amount now id (r, s))
  unfolding Limiter.finish
  finish-Notes l (Limiter.granted ws) s = (refl, inr (lookup-insert_self id _ l.reservations, refl))
  finish-Notes l (Limiter.exceeded e) s = tt

  unmetered-Notes :
      (l : Limiter fl.F S)
      → lookup id l.reservations ≡ none
      → Notes (inl (Limiter.unmetered fl cs format id), l)
  unfolding Limiter.unmetered
  unmetered-Notes l e = (refl, inl e)

  rule-Notes :
      (l : Limiter fl.F S) (rule : BudgetRule) (m : List (Window × ℤ))
      → rule.limits ≡ m
      → lookup id l.reservations ≡ none
      → Notes (Limiter.check_budget fl cs format l (some rule) keys amount now id)
  unfolding Limiter.check_budget
  rule-Notes l rule [] q e = simp (q, Limiter.check_budget) (unmetered-Notes l e)
  rule-Notes l rule (x ∷ m) q e = elim (Bool-cases (ltb_ℤ (pos 0) amount)) [
    | inl t ↦ simp (q, Limiter.check_budget) (rw t (finish-Notes l _ _))
    | inr t ↦ simp (q, Limiter.check_budget) (rw t (unmetered-Notes l e))
  ]

  check_budget-Notes :
      (l : Limiter fl.F S) (rule : Option BudgetRule)
      → lookup id l.reservations ≡ none
      → Notes (Limiter.check_budget fl cs format l rule keys amount now id)
  check_budget-Notes l none e = unfold Limiter.check_budget in unmetered-Notes l e
  check_budget-Notes l (some rule) e = rule-Notes l rule rule.limits refl e

  after_rate-Notes :
      (l : Limiter fl.F S) (burst : ℤ) (a : Option (Bool × ℤ)) (s : S)
      → lookup id l.reservations ≡ none
      → Notes (Limiter.after_rate fl cs format l keys amount now id burst (a, s))
  unfolding Limiter.after_rate
  after_rate-Notes l burst a s e = elim (Bool-cases (Limiter.rate_refused a)) [
    | inl t ↦ rw t (tt)
    | inr t ↦ rw t (check_budget-Notes (record l { store = s }) _ e)
  ]

  check_rate-Notes :
      (l : Limiter fl.F S) (rule : Option (RateLimitRule fl.F))
      → lookup id l.reservations ≡ none
      → Notes (Limiter.check_rate fl cs format l rule keys amount now id)
  unfolding Limiter.check_rate
  check_rate-Notes l none e = check_budget-Notes l _ e
  check_rate-Notes l (some rule) e = elim (Bool-cases (fl.ltb (fl.of_int (pos 0)) rule.rate)) [
    | inl t ↦ rw t (after_rate-Notes l rule.burst _ _ e)
    | inr t ↦ rw t (check_budget-Notes l _ e)
  ]

  pub pre_check-Notes :
      (l : Limiter fl.F S)
      → lookup id l.reservations ≡ none
      → Notes (Limiter.pre_check fl cs format l keys amount now id)
  unfolding Limiter.pre_check
  pre_check-Notes l e = check_rate-Notes l _ e
