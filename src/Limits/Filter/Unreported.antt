-- ===== src/Limits/Filter/Unreported.antt =====
-- A request whose response does not say what it used (internal/limits/filter.go with limiter.go).
use torana_enterprise.Prelude.{
  ℕ, ◌≡◌, ◌≢◌, refl, sym, ◌∙◌, ap, ◌⊎◌, inl, inr, Bool, false, if◌then◌else◌, List, [], ◌∷◌, Option,
  none, some,
}
use torana_enterprise.Prelude.Int.{ℤ, IsInt64}
use torana_enterprise.Prelude.Maps.{◌≟◌, lookup, lookup-insert, lookup-insert_self}
use torana_enterprise.Prelude.Bytes.{Bytes, bytes, bytes_key, bytes_eq}
use torana_enterprise.Prelude.Decimal.{format_int, parse_int-format_int}
use torana_enterprise.Prelude.Float.{Float64}
use torana_enterprise.Prelude.Json.{Json}
use torana_enterprise.Pipeline.Types.{Err, Decision, Envelope}
use torana_enterprise.Limits.Types.{DimensionKeys, Reason, Reservation, RateLimitError}
use torana_enterprise.Limits.Store.{CounterStore}
use torana_enterprise.Limits.Store.Laws.{CounterLaws}
use torana_enterprise.Limits.Limiter
use torana_enterprise.Limits.Limiter.{Limiter}
use torana_enterprise.Limits.Limiter.Unchanged.{
  IsHeld, reconcile_same, reconcile_absent, Notes, pre_check-Notes,
}
use torana_enterprise.Limits.Usage.{Payload, Entry}
use torana_enterprise.Limits.Filter.{
  extract_dimensions, default_max, estimate, attach, granted, refuse, answered, pre_check_process,
  first_of, reported, reserved_number, or_zero, actual_tokens, settled, reconcile_process,
}

is_named : (s : Bytes) → s ≢ [] → (s ≟ []) ≡ false
unfolding bytes_eq
is_named [] n = absurd (n refl)
is_named (c ∷ s) n = refl

module _ (fl : Float64) {S : Type 0} (cs : CounterStore fl.F S) (format : Bytes → ℕ → Bytes)
    (text_of : Reason → Bytes) (to_json : RateLimitError → Bytes)
    (read_response : Bytes → Option (List (Bytes × Entry fl.F))) where
  reserved_id :
      (r : Reservation) (env : Envelope)
      → lookup (bytes "limits.reservation_id") (attach fl cs format text_of to_json r env).metadata
        ≡ some r.id
  unfolding attach bytes_eq
  reserved_id r env =
      lookup-insert (bytes "limits.reserved_tokens") (bytes "limits.reservation_id") _ _
      ∙ lookup-insert_self (bytes "limits.reservation_id") r.id env.metadata

  reserved_tokens :
      (r : Reservation) (env : Envelope)
      → lookup (bytes "limits.reserved_tokens") (attach fl cs format text_of to_json r env).metadata
        ≡ some (format_int r.reserved_tokens)
  unfolding attach
  reserved_tokens r env = lookup-insert_self (bytes "limits.reserved_tokens") _ _

  settled_at :
      (now : ℕ) (env : Envelope) (l : Limiter fl.F S) (id : Bytes)
      → id ≢ []
      → settled fl cs format read_response now env l (some id)
        ≡ (Limiter.reconcile fl cs format l id (actual_tokens fl cs format read_response env) now).1
  unfolding settled
  settled_at now env l [] named = absurd (named refl)
  settled_at now env l (c ∷ id) named = refl

  -- a response that reports nothing counts as the number that its request noted
  actual_tokens-noted :
      (env : Envelope) (n : ℤ)
      → IsInt64 n
      → lookup (bytes "limits.reserved_tokens") env.metadata ≡ some (format_int n)
      → reported fl cs format read_response env ≡ none
      → actual_tokens fl cs format read_response env ≡ n
  unfolding actual_tokens first_of
  actual_tokens-noted env n h noted quiet =
      rw (quiet, noted)
        (unfold reserved_number in rw (parse_int-format_int n h) (unfold or_zero in refl))

  module _ (now : ℕ) (laws : CounterLaws cs now) where
    open laws use {IsGood, usage}

    -- The limiter afterwards holds no reservation of this name, and counts what it counted before.
    abbrev pub IsSettled : Bytes → Limiter fl.F S → Limiter fl.F S → Type 0
    IsSettled id l l' =
        (lookup id l'.reservations ≡ none) × ((j : Bytes) → usage l'.store j ≡ usage l.store j)

    settled_lem :
        (l : Limiter fl.F S) (r : Reservation) (n : ℤ) (id : Bytes) (env env2 : Envelope)
        → r.id ≡ id
        → id ≢ []
        → IsInt64 n
        → (lookup id l.reservations ≡ none)
          ⊎ ((lookup id l.reservations ≡ some r) × (r.reserved_tokens ≡ n))
        → IsGood l.store
        → ((r' : Reservation)
            → lookup id l.reservations ≡ some r'
            → IsHeld fl cs format now laws l.store r')
        → env2.metadata ≡ (attach fl cs format text_of to_json r env).metadata
        → reported fl cs format read_response env2 ≡ none
        → IsSettled id l (reconcile_process fl cs format read_response now env2 l).3
    unfolding reconcile_process settled
    settled_lem l r n id env env2 same_id named h o g held same quiet =
        let noted : lookup (bytes "limits.reservation_id") env2.metadata ≡ some id =
          rw same (reserved_id r env ∙ ap (λ k. some k) same_id) in
        rw (noted, settled_at now env2 l id named)
          (elim o [
            | inl e ↦ rw (reconcile_absent fl cs format l id _ now e) (e, λ j. refl)
            | inr (e, t) ↦
                let tokens : actual_tokens fl cs format read_response env2 ≡ n =
                  actual_tokens-noted env2 n h
                    (rw same (reserved_tokens r env ∙ ap (λ k. some (format_int k)) t)) quiet in
                rw tokens (
                  reconcile_same fl cs format now laws l id n
                    (λ r' e'. (let same_r : r ≡ r' = cc (e, e') in cc (same_r, t), held r' e')) h g)
          ])

    after_answer :
        (n : ℤ) (id : Bytes) (keys : DimensionKeys) (at : ℕ) (env env2 : Envelope)
        (x : (Reservation ⊎ RateLimitError) × Limiter fl.F S)
        → Notes fl cs format keys n at id x
        → id ≢ []
        → IsInt64 n
        → let p = answered fl cs format text_of to_json env x in
          p.1 ≡ none
          → IsGood p.3.store
          → ((r : Reservation)
              → lookup id p.3.reservations ≡ some r
              → IsHeld fl cs format now laws p.3.store r)
          → env2.metadata ≡ p.2.metadata
          → reported fl cs format read_response env2 ≡ none
          → IsSettled id p.3 (reconcile_process fl cs format read_response now env2 p.3).3
    unfolding answered granted refuse
    after_answer n id keys at env env2 (inr e, l) notes named h q g held same quiet = cc
    after_answer n id keys at env env2 (inl r, l) (same_id, o) named h q g held same quiet =
        settled_lem l r n id env env2 same_id named h o g held
          (same
            ∙ ap
                (λ (b : Bool).
                  (if b then env else attach fl cs format text_of to_json r env).metadata)
                (is_named r.id (λ e. named (sym same_id ∙ e))))
          quiet

    module _ (read_request : Bytes → Option Payload) (write_messages : List Json → Bytes)
        (default : ℤ) where
      -- what PreCheckFilter answers and leaves
      abbrev pub checked :
          ℕ → Bytes → Envelope → Limiter fl.F S → Decision × Option Err × Envelope × Limiter fl.F S
      checked = pre_check_process fl cs format text_of to_json read_request write_messages default

      -- PreCheckFilter lets a request pass under an identifier that is new and not empty, at the time
      -- `at`; at the time `now` ReconciliationFilter has an envelope with the metadata that it left, whose
      -- headers and body report no usage. If the counters of the reservation, where there is one, have not
      -- expired, then the limiter holds no reservation of this identifier afterwards, and the count of
      -- every key is what PreCheckFilter left.
      pub unreported_round_trip :
          (l : Limiter fl.F S) (env env2 : Envelope) (at : ℕ) (id : Bytes)
          → id ≢ []
          → lookup id l.reservations ≡ none
          → IsInt64 (estimate fl read_request write_messages (default_max default) env)
          → (checked at id env l).1 ≡ none
          → IsGood (checked at id env l).3.store
          → ((r : Reservation)
              → lookup id (checked at id env l).3.reservations ≡ some r
              → IsHeld fl cs format now laws (checked at id env l).3.store r)
          → env2.metadata ≡ (checked at id env l).2.metadata
          → reported fl cs format read_response env2 ≡ none
          → IsSettled id
              (checked at id env l).3
              (reconcile_process fl cs format read_response now env2 (checked at id env l).3).3
      unfolding pre_check_process
      unreported_round_trip l env env2 at id named new h q g held same quiet =
          let n = estimate fl read_request write_messages (default_max default) env in
          let keys = extract_dimensions env in
          after_answer n id keys at env env2 (Limiter.pre_check fl cs format l keys n at id)
            (pre_check-Notes fl cs format keys n at id l new) named h q g held same quiet
