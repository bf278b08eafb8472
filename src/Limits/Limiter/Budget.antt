-- ===== src/Limits/Limiter/Budget.antt =====
-- Two-stage accounting: PreCheck charges the windows or leaves the counts alone, and Reconcile puts
-- the actual tokens in the place of the estimate (internal/limits/limiter.go).
use torana_enterprise.Prelude.{
  ℕ, ◌+◌, ◌^◌, ◌<◌, ◌≡◌, refl, Bool, List, [], ◌∷◌, Option, none, some, inl, inr, ◌⊎◌, arith,
  Bool-cases,
}
use torana_enterprise.Prelude.Int.{ℤ, pos, ltb_ℤ}
use torana_enterprise.Prelude.Bytes.{Bytes, bytes_key}
use torana_enterprise.Prelude.Float.{Float64}
use torana_enterprise.Limits.Types.{
  Window, DimensionKeys, BudgetRule, RateLimitRule, Reservation, RateLimitError,
}
use torana_enterprise.Limits.Store.{CounterStore}
use torana_enterprise.Limits.Store.Laws.{CounterLaws}
use torana_enterprise.Limits.Limiter
use torana_enterprise.Limits.Limiter.{Limiter}
use torana_enterprise.Limits.Limiter.Accounts.{charge, Leaves, reserve_windows-Leaves}

module _ (fl : Float64) {S : Type 0} (cs : CounterStore fl.F S) (format : Bytes → ℕ → Bytes)
    (now : ℕ) (laws : CounterLaws cs now) (keys : DimensionKeys) where
  open laws use {IsGood, IsLive, usage}

  abbrev charged_at : ℕ → Bytes → List Window → ℕ
  charged_at = charge fl cs format now laws keys now

  -- What PreCheck did to the counts: an error has left them, a reservation has added its tokens once
  -- at the key of each of its windows.
  pub Accounts : ℕ → (Bytes → ℕ) → (Reservation ⊎ RateLimitError) × Limiter fl.F S → Type 0
  Accounts n base (inr e, l) = IsGood l.store × ((j : Bytes) → usage l.store j ≡ base j)
  Accounts n base (inl r, l) =
      IsGood l.store × ((j : Bytes) → usage l.store j ≡ base j + charged_at n j r.windows)

  finish-Accounts :
      (l : Limiter fl.F S) (n : ℕ) (id : Bytes) (base : Bytes → ℕ) (r : Limiter.Reserved) (s : S)
      → Leaves fl cs format now laws keys n base r s
      → Accounts n base (Limiter.finish fl cs format l keys (pos n) now id (r, s))
  unfolding Limiter.finish Accounts Leaves
  finish-Accounts l n id base (Limiter.granted ws) s c = (c.good, c.charged)
  finish-Accounts l n id base (Limiter.exceeded e) s c = c

  unmetered-Accounts :
      (l : Limiter fl.F S) (n : ℕ) (id : Bytes) (base : Bytes → ℕ)
      → IsGood l.store
      → ((j : Bytes) → usage l.store j ≡ base j)
      → Accounts n base (inl (Limiter.unmetered fl cs format id), l)
  unfolding Limiter.unmetered Accounts charge
  unmetered-Accounts l n id base g u = (g, λ j. omega (arith, u j))

  metered-Accounts :
      (l : Limiter fl.F S) (rule : BudgetRule) (n : ℕ) (id : Bytes) (base : Bytes → ℕ)
      → n < 2 ^ 63
      → IsGood l.store
      → ((j : Bytes) → usage l.store j ≡ base j)
      → Accounts n base (
          Limiter.finish fl cs format l keys (pos n) now id (
            Limiter.reserve_windows fl cs format rule keys
              (pos n)
              now
              Limiter.windows_in_order
              []
              l.store))
  metered-Accounts l rule n id base h g u = finish-Accounts l n id base _ _ (
      reserve_windows-Leaves fl cs format now laws keys rule n base Limiter.windows_in_order []
        l.store h
        (record { good = g; live = tt; charged = λ j. unfold charge in omega (arith, u j) }))

  rule-Accounts :
      (l : Limiter fl.F S) (rule : BudgetRule) (m : List (Window × ℤ)) (n : ℕ) (id : Bytes)
      (base : Bytes → ℕ)
      → rule.limits ≡ m
      → n < 2 ^ 63
      → IsGood l.store
      → ((j : Bytes) → usage l.store j ≡ base j)
      → Accounts n base (Limiter.check_budget fl cs format l (some rule) keys (pos n) now id)
  unfolding Limiter.check_budget
  rule-Accounts l rule [] n id base e h g u =
      simp (e, Limiter.check_budget) (unmetered-Accounts l n id base g u)
  rule-Accounts l rule (x ∷ m) n id base e h g u = elim (Bool-cases (ltb_ℤ (pos 0) (pos n))) [
    | inl t ↦ simp (e, Limiter.check_budget) (rw t (metered-Accounts l rule n id base h g u))
    | inr t ↦ simp (e, Limiter.check_budget) (rw t (unmetered-Accounts l n id base g u))
  ]

  check_budget-Accounts :
      (l : Limiter fl.F S) (rule : Option BudgetRule) (n : ℕ) (id : Bytes) (base : Bytes → ℕ)
      → n < 2 ^ 63
      → IsGood l.store
      → ((j : Bytes) → usage l.store j ≡ base j)
      → Accounts n base (Limiter.check_budget fl cs format l rule keys (pos n) now id)
  check_budget-Accounts l none n id base h g u =
      unfold Limiter.check_budget in unmetered-Accounts l n id base g u
  check_budget-Accounts l (some rule) n id base h g u =
      rule-Accounts l rule rule.limits n id base refl h g u

  after_rate-Accounts :
      (l : Limiter fl.F S) (n : ℕ) (id : Bytes) (burst : ℤ) (base : Bytes → ℕ)
      (a : Option (Bool × ℤ)) (s : S)
      → n < 2 ^ 63
      → IsGood s
      → ((j : Bytes) → usage s j ≡ base j)
      → Accounts n base (Limiter.after_rate fl cs format l keys (pos n) now id burst (a, s))
  unfolding Limiter.after_rate
  after_rate-Accounts l n id burst base a s h g u = elim (Bool-cases (Limiter.rate_refused a)) [
    | inl t ↦ rw t (unfold Accounts in (g, u))
    | inr t ↦ rw t (check_budget-Accounts (record l { store = s }) _ n id base h g u)
  ]

  check_rate-Accounts :
      (l : Limiter fl.F S) (rule : Option (RateLimitRule fl.F)) (n : ℕ) (id : Bytes)
      → n < 2 ^ 63
      → IsGood l.store
      → Accounts n (usage l.store) (Limiter.check_rate fl cs format l rule keys (pos n) now id)
  unfolding Limiter.check_rate
  check_rate-Accounts l none n id h g = check_budget-Accounts l _ n id _ h g (λ j. refl)
  check_rate-Accounts l (some rule) n id h g =
      elim (Bool-cases (fl.ltb (fl.of_int (pos 0)) rule.rate)) [
        | inl t ↦
            let (g', keep, u) = laws.allow_rate_keeps _ rule.rate rule.burst l.store g in
            rw t (after_rate-Accounts l n id rule.burst _ _ _ h g' u)
        | inr t ↦ rw t (check_budget-Accounts l _ n id _ h g (λ j. refl))
      ]

  -- Over any store with the counter laws and an estimate below 2^63: if PreCheck returns an error, on
  -- the request rate or at any of the windows, the count at every key is what it was; if it returns a
  -- reservation, the estimate has been added once at the key of each window that the reservation names.
  pub pre_check-Accounts :
      (l : Limiter fl.F S) (n : ℕ) (id : Bytes)
      → n < 2 ^ 63
      → IsGood l.store
      → Accounts n (usage l.store) (Limiter.pre_check fl cs format l keys (pos n) now id)
  unfolding Limiter.pre_check
  pre_check-Accounts l n id h g = check_rate-Accounts l _ n id h g
