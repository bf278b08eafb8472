-- ===== src/Samples/Limits.antt =====
-- The local store and the limiter at concrete inputs, with integers for floating-point numbers.
use torana_enterprise.Prelude.{
  ℕ, ◌+◌, ◌-◌, ◌/◌, ◌^◌, ◌<◌, ◌≡◌, refl, true, [], ◌∷◌, none, some, inl, inr, Bool-cases, arith,
  ltb, if◌then◌else◌,
}
use torana_enterprise.Prelude.Int.{ℤ, pos, pos_part, ◌+ℤ◌, ◌-ℤ◌, ◌*ℤ◌, leb_ℤ, ltb_ℤ}
use torana_enterprise.Prelude.Maps.{◌≟◌, ≟_refl, lookup}
use torana_enterprise.Prelude.Bytes.{Bytes, bytes, bytes_key, bytes_eq}
use torana_enterprise.Prelude.Float.{Float64}
use torana_enterprise.Limits.Types.{
  window_minute, DimensionKeys, build_key, BudgetRule, Reservation, refused,
}
use torana_enterprise.Limits.Store.{
  CounterStore, LocalCounterStore, local_limit, reserve, local_store,
}
use torana_enterprise.Limits.Store.Laws.{CounterLaws}
use torana_enterprise.Limits.Store.Quota.{IsGood, IsLive, usage, reserve-usage}
use torana_enterprise.Limits.Store.Local.{HasQuotas, local_laws}
use torana_enterprise.Limits.Limiter as Limiter
use torana_enterprise.Limits.Limiter.Accounts.{charge}
use torana_enterprise.Limits.Limiter.Budget.{Accounts, pre_check-Accounts}
use torana_enterprise.Limits.Limiter.Settlement.{share, reconcile-usage}

abbrev pub integers : Float64
integers = record {
  F = ℤ;
  of_int = λ a. a;
  to_int = λ a. pos (if ltb (pos_part a) (2 ^ 63) then pos_part a else 2 ^ 63 - 1);
  add = λ a b. a +ℤ b;
  sub = λ a b. a -ℤ b;
  mul = λ a b. a *ℤ b;
  div = λ a b. pos (pos_part a / pos_part b);
  min = λ a b. if leb_ℤ a b then a else b;
  ceil = λ a. a;
  leb = leb_ℤ;
  ltb = ltb_ℤ;
  seconds = λ a. pos (pos_part a / 1000000000);
}

pub quotas : HasQuotas integers
quotas limit peers h k = (_, refl, ground arith)

abbrev pub local : CounterStore ℤ (LocalCounterStore ℤ)
local = local_store integers

abbrev pub laws : CounterLaws local 100
laws = local_laws integers 100 quotas

abbrev pub no_format : Bytes → ℕ → Bytes
no_format layout t = []

abbrev pub keys : DimensionKeys
keys = record { identity = bytes "alice"; team = bytes "core"; route = []; model = [] }

abbrev pub minute_key : Bytes
minute_key = build_key no_format keys (bytes "tokens") window_minute 100

abbrev empty_store : LocalCounterStore ℤ
empty_store = record { counters = []; buckets = []; peer_count = pos 1 }

abbrev pub used_store : LocalCounterStore ℤ
used_store = record {
  counters = (minute_key, record { used = pos 5; expires_at = 1000 }) ∷ [];
  buckets = [];
  peer_count = pos 1;
}

abbrev pub budget : BudgetRule
budget = record { limits = (window_minute, pos 8) ∷ [] }

abbrev reservation : Reservation
reservation = record {
  id = bytes "x";
  keys = keys;
  reserved_tokens = pos 5;
  windows = window_minute ∷ [];
  created_at = 100;
}

abbrev limiter : Limiter.Limiter ℤ (LocalCounterStore ℤ)
limiter = record {
  store = used_store;
  default_budget = some budget;
  default_rate = none;
  budgets_by_key = [];
  rates_by_key = [];
  reservations = (bytes "x", reservation) ∷ [];
  reservation_ttl = 300000000000;
}

used_store-IsGood : IsGood integers 100 used_store
used_store-IsGood = record {
  sane = λ k. elim (Bool-cases (minute_key ≟ k)) [
    | inl t ↦ unfold lookup in rw t (refl, omega arith)
    | inr t ↦ unfold lookup in rw t tt
  ];
}

-- what the store counts, by the key's being that of the minute window
used_store-usage : (j : Bytes) → usage integers 100 used_store j ≡ (if minute_key ≟ j then 5 else 0)
unfolding usage lookup
used_store-usage j = elim (Bool-cases (minute_key ≟ j)) [ inl t ↦ rw t refl | inr t ↦ rw t refl ]

reserve-usage_example :
    let (res, s') = reserve integers 100 minute_key (pos 4) (pos 8) window_minute used_store in
    let over = ltb 8 (usage integers 100 used_store minute_key + 4) in
    (refused res ≡ over)
    × IsGood integers 100 s'
    × IsLive integers 100 s' minute_key
    × ((j : Bytes) → IsLive integers 100 used_store j → IsLive integers 100 s' j)
    × ((j : Bytes)
        → usage integers 100 s' j
          ≡ usage integers 100 used_store j
            + (if minute_key ≟ j then (if over then 0 else 4) else 0))
reserve-usage_example =
    reserve-usage integers 100 minute_key 4 8 (pos 8) window_minute used_store used_store-IsGood
      (unfold local_limit in refl) (omega arith)

pre_check-Accounts_example :
    Accounts integers local no_format 100 laws keys 3
      (usage integers 100 used_store)
      (Limiter.pre_check integers local no_format limiter keys (pos 3) 100 (bytes "y"))
unfolding local_laws
pre_check-Accounts_example =
    pre_check-Accounts integers local no_format 100 laws keys limiter 3 (bytes "y") (omega arith)
      used_store-IsGood

share_once :
    (n : ℕ) (j : Bytes)
    → share integers local no_format 100 laws reservation n j (window_minute ∷ [])
      ≡ (if minute_key ≟ j then n else 0)
unfolding local_laws charge Limiter.token_key
share_once n j = omega arith

held :
    (j : Bytes)
    → usage integers 100 used_store j
      ≡ 0 + share integers local no_format 100 laws reservation 5 j (window_minute ∷ [])
unfolding local_laws
held j = omega (arith, used_store-usage j, share_once 5 j)

room :
    (j : Bytes)
    → 0
        + share integers local no_format 100 laws reservation 5 j (window_minute ∷ [])
        + share integers local no_format 100 laws reservation 2 j (window_minute ∷ [])
      < 2 ^ 63
room j = rw (share_once 5 j, share_once 2 j) (ground arith)

found : IsLive integers 100 used_store minute_key
unfolding IsLive lookup
found = rw (≟_refl minute_key) (omega arith)

live :
    IsLive integers 100 used_store
      (Limiter.token_key integers local no_format keys window_minute 100)
unfolding Limiter.token_key
live = found

reconcile-usage_example :
    let (found, l') = Limiter.reconcile integers local no_format limiter (bytes "x") (pos 2) 100 in
    (found ≡ true)
    × (lookup (bytes "x") l'.reservations ≡ none)
    × ((j : Bytes)
        → usage integers 100 l'.store j
          ≡ 0 + share integers local no_format 100 laws reservation 2 j (window_minute ∷ []))
unfolding local_laws
reconcile-usage_example =
    reconcile-usage integers local no_format 100 laws limiter (bytes "x") reservation 2 5 (λ j. 0)
      (unfold lookup bytes_eq in refl) refl (omega arith) (omega arith) used_store-IsGood (live, tt)
      held room
