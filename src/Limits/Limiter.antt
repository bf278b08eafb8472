-- ===== src/Limits/Limiter.antt =====
-- Limiter of internal/limits/limiter.go, over any counter store. `now` is the clock, `id` the random
-- identifier that generateReservationID draws.
pub mod Accounts
pub mod Budget
pub mod Settlement
pub mod Unchanged
use torana_enterprise.Prelude.{
  ℕ, ◌+◌, ◌-◌, Bool, true, false, List, [], ◌∷◌, ◌++◌, Option, none, some, ltb, not, ◌||◌, ◌⊎◌, inl,
  inr, if◌then◌else◌,
}
use torana_enterprise.Prelude.Int.{ℤ, pos, wrap64, ◌-ℤ◌, leb_ℤ, ltb_ℤ}
use torana_enterprise.Prelude.Maps.{lookup, insert, delete}
use torana_enterprise.Prelude.Bytes.{Bytes, bytes, bytes_key}
use torana_enterprise.Prelude.Float.{Float64}
use torana_enterprise.Limits.Types.{
  Window, window_minute, window_day, window_month, DimensionKeys, build_key, rate_limit_key,
  BudgetRule, RateLimitRule, Reason, no_reason, token_budget_exceeded, rate_exceeded,
  ReservationResult, Reservation, RateLimitError, whole_seconds, refused,
}
use torana_enterprise.Limits.Store.{CounterStore}

-- A map to pointers may hold nil, so its values are options too.
pub record Limiter (F S : Type 0) : Type 0 where
  pub store : S
  pub default_budget : Option BudgetRule
  pub default_rate : Option (RateLimitRule F)
  pub budgets_by_key : List (Bytes × Option BudgetRule)
  pub rates_by_key : List (Bytes × Option (RateLimitRule F))
  pub reservations : List (Bytes × Reservation)
  pub reservation_ttl : ℕ

-- the first of three keys that the map has, or else the default
unfoldable pub resolve :
    {A : Type 0} → Bytes → Bytes → Bytes → List (Bytes × Option A) → Option A → Option A
resolve a b c m default = elim (lookup a m) [
  | some x ↦ x
  | none ↦ elim (lookup b m) [
    | some x ↦ x
    | none ↦ elim (lookup c m) [ some x ↦ x | none ↦ default ]
  ]
]

pub data Reserved : Type 0 where
  granted : List Window → Reserved
  exceeded : RateLimitError → Reserved

abbrev pub windows_in_order : List Window
windows_in_order = window_minute ∷ window_day ∷ window_month ∷ []

at_least_one : ℤ → ℤ
at_least_one n = if ltb_ℤ n (pos 1) then pos 1 else n

retry_seconds : Option ReservationResult → ℤ
unfolding at_least_one
retry_seconds none = pos 1
retry_seconds (some r) =
    if ltb_ℤ (pos 0) r.retry_after then at_least_one (whole_seconds r.retry_after) else pos 1

budget_reason : Option ReservationResult → Reason
budget_reason none = token_budget_exceeded
budget_reason (some r) = elim r.reason [ no_reason ↦ token_budget_exceeded | other ↦ other ]

pub budget_error : Option ReservationResult → Window → ℤ → RateLimitError
unfolding retry_seconds budget_reason
budget_error res w limit = record {
  error_message = bytes "token_budget_exceeded";
  code = bytes "TOKEN_BUDGET_EXCEEDED";
  reason = budget_reason res;
  window = w;
  retry_after = retry_seconds res;
  limit = limit;
  remaining = pos 0;
}

pub rate_error : Option (Bool × ℤ) → ℤ → RateLimitError
unfolding at_least_one
rate_error answer burst = record {
  error_message = bytes "rate_limit_exceeded";
  code = bytes "REQUEST_RATE_LIMIT_EXCEEDED";
  reason = rate_exceeded burst;
  window = [];
  retry_after = at_least_one (elim answer [ none ↦ pos 0 | some (_, wait) ↦ whole_seconds wait ]);
  limit = pos 0;
  remaining = pos 0;
}

-- `err != nil || !allowed`
pub rate_refused : Option (Bool × ℤ) → Bool
rate_refused none = true
rate_refused (some (allowed, wait)) = not allowed

module _ (fl : Float64) {S : Type 0} (cs : CounterStore fl.F S) (format : Bytes → ℕ → Bytes) where
  unfoldable pub token_key : DimensionKeys → Window → ℕ → Bytes
  token_key keys w now = build_key format keys (bytes "tokens") w now

  -- the loop that gives the windows of `done` back
  unfoldable pub rollback : DimensionKeys → ℤ → ℕ → List Window → S → S
  rollback keys amount now [] s = s
  rollback keys amount now (w ∷ done) s =
      rollback keys amount now done
        (cs.reconcile now (token_key keys w now) (wrap64 (pos 0 -ℤ amount)) w s)

  after_reserve :
      DimensionKeys
      → ℤ
      → ℕ
      → Window
      → ℤ
      → List Window
      → Option ReservationResult × S
      → (Unit {0} → S → Reserved × S)
      → Reserved × S
  after_reserve keys amount now w limit done (res, s) go_on =
      if refused res
      then (exceeded (budget_error res w limit), rollback keys amount now done s)
      else go_on tt s

  -- the loop over the windows, those of `done` being reserved
  unfoldable pub reserve_windows :
      BudgetRule → DimensionKeys → ℤ → ℕ → List Window → List Window → S → Reserved × S
  unfolding after_reserve
  reserve_windows rule keys amount now [] done s = (granted done, s)
  reserve_windows rule keys amount now (w ∷ ws) done s = elim (lookup w rule.limits) [
    | none ↦ reserve_windows rule keys amount now ws done s
    | some limit ↦ elim (leb_ℤ limit (pos 0)) [
      | true ↦ reserve_windows rule keys amount now ws done s
      | false ↦
          after_reserve keys amount now w limit done
            (cs.reserve now (token_key keys w now) amount limit w s)
            (λ _ s'. reserve_windows rule keys amount now ws (done ++ w ∷ []) s')
    ]
  ]

  abbrev LimiterS : Type 0
  LimiterS = Limiter fl.F S

  resolve_budget_rule : LimiterS → DimensionKeys → Option BudgetRule
  resolve_budget_rule l keys =
      resolve keys.model keys.team keys.route l.budgets_by_key l.default_budget

  resolve_rate_rule : LimiterS → DimensionKeys → Option (RateLimitRule fl.F)
  resolve_rate_rule l keys =
      resolve keys.team keys.identity keys.route l.rates_by_key l.default_rate

  unmetered : Bytes → Reservation
  unmetered id = record {
    id = id;
    keys = record { identity = []; team = []; route = []; model = [] };
    reserved_tokens = pos 0;
    windows = [];
    created_at = 0;
  }

  -- Reservation, or the error
  finish :
      LimiterS
      → DimensionKeys
      → ℤ
      → ℕ
      → Bytes
      → Reserved × S
      → (Reservation ⊎ RateLimitError) × LimiterS
  finish l keys amount now id (exceeded e, s) = (inr e, record l { store = s })
  finish l keys amount now id (granted ws, s) =
      let r : Reservation = record {
        id = id;
        keys = keys;
        reserved_tokens = amount;
        windows = ws;
        created_at = now;
      } in
      (inl r, record l { store = s; reservations = insert id r l.reservations })

  -- the second stage of PreCheck
  check_budget :
      LimiterS
      → Option BudgetRule
      → DimensionKeys
      → ℤ
      → ℕ
      → Bytes
      → (Reservation ⊎ RateLimitError) × LimiterS
  unfolding finish unmetered
  check_budget l none keys amount now id = (inl (unmetered id), l)
  check_budget l (some rule) keys amount now id = elim rule.limits [
    | [] ↦ (inl (unmetered id), l)
    | _ ∷ _ ↦
        if ltb_ℤ (pos 0) amount
        then finish l keys amount now id
            (reserve_windows rule keys amount now windows_in_order [] l.store)
        else (inl (unmetered id), l)
  ]

  after_rate :
      LimiterS
      → DimensionKeys
      → ℤ
      → ℕ
      → Bytes
      → ℤ
      → Option (Bool × ℤ) × S
      → (Reservation ⊎ RateLimitError) × LimiterS
  unfolding check_budget resolve_budget_rule
  after_rate l keys amount now id burst (answer, s) =
      let l' = record l { store = s } in
      if rate_refused answer
      then (inr (rate_error answer burst), l')
      else check_budget l' (resolve_budget_rule l' keys) keys amount now id

  check_rate :
      LimiterS
      → Option (RateLimitRule fl.F)
      → DimensionKeys
      → ℤ
      → ℕ
      → Bytes
      → (Reservation ⊎ RateLimitError) × LimiterS
  unfolding after_rate
  check_rate l none keys amount now id =
      check_budget l (resolve_budget_rule l keys) keys amount now id
  check_rate l (some rule) keys amount now id =
      if fl.ltb (fl.of_int (pos 0)) rule.rate
      then after_rate l keys amount now id rule.burst
          (cs.allow_rate now (rate_limit_key keys) rule.rate rule.burst l.store)
      else check_budget l (resolve_budget_rule l keys) keys amount now id

  unfoldable pub pre_check :
      LimiterS → DimensionKeys → ℤ → ℕ → Bytes → (Reservation ⊎ RateLimitError) × LimiterS
  unfolding check_rate resolve_rate_rule
  pre_check l keys amount now id = check_rate l (resolve_rate_rule l keys) keys amount now id

  -- the loop of Reconcile
  pub settle : DimensionKeys → ℕ → ℤ → ℕ → List Window → S → S
  settle keys created delta now [] s = s
  settle keys created delta now (w ∷ ws) s =
      settle keys created delta now ws (cs.reconcile now (token_key keys w created) delta w s)

  -- Reconcile: whether the reservation was found, and the limiter afterwards
  settle_found : LimiterS → Bytes → ℤ → ℕ → Option Reservation → Bool × LimiterS
  settle_found l id actual now none = (false, l)
  settle_found l id actual now (some r) = (
    true,
    record l {
      store =
          settle r.keys r.created_at (wrap64 (actual -ℤ r.reserved_tokens)) now r.windows l.store;
      reservations = delete id l.reservations;
    },
  )

  pub reconcile : LimiterS → Bytes → ℤ → ℕ → Bool × LimiterS
  unfolding settle_found
  reconcile l id actual now = settle_found l id actual now (lookup id l.reservations)

  fresh_reservations : ℕ → ℕ → List (Bytes × Reservation) → List (Bytes × Reservation)
  fresh_reservations ttl now [] = []
  fresh_reservations ttl now ((id, r) ∷ m) =
      let rest = fresh_reservations ttl now m in
      if ltb ttl (now - r.created_at) then rest else (id, r) ∷ rest

  -- one tick of staleReservationCleaner
  unfoldable pub clean_stale : LimiterS → ℕ → LimiterS
  unfolding fresh_reservations
  clean_stale l now = record l {
    reservations = fresh_reservations l.reservation_ttl now l.reservations;
  }
