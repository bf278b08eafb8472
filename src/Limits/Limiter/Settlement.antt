-- ===== src/Limits/Limiter/Settlement.antt =====
-- Stage two: Reconcile puts the actual tokens in the place of the reserved ones
-- (internal/limits/limiter.go, Reconcile).
use torana_enterprise.Prelude.{
  ℕ, ◌+◌, ◌^◌, ◌≤◌, ◌<◌, ◌≡◌, refl, true, List, [], ◌∷◌, none, some, All, All-map, arith,
  if◌then◌else◌,
}
use torana_enterprise.Prelude.Int.{pos, pos_part, neg_part, wrap64, ◌-ℤ◌}
use torana_enterprise.Prelude.Maps.{◌≟◌, ≟_refl, lookup, delete, lookup-delete}
use torana_enterprise.Prelude.Bytes.{Bytes, bytes_key}
use torana_enterprise.Prelude.Float.{Float64}
use torana_enterprise.Limits.Types.{Window, Reservation}
use torana_enterprise.Limits.Store.{CounterStore}
use torana_enterprise.Limits.Store.Laws.{CounterLaws}
use torana_enterprise.Limits.Limiter
use torana_enterprise.Limits.Limiter.{Limiter}
use torana_enterprise.Limits.Limiter.Accounts.{charge}

difference :
    (a n : ℕ)
    → a < 2 ^ 63
    → n < 2 ^ 63
    → let d = wrap64 (pos a -ℤ pos n) in
      (pos_part d + n ≡ neg_part d + a) × (pos_part d ≤ a) × (neg_part d ≤ n)
unfolding wrap64 ◌-ℤ◌
difference a n h k = ground arith

module _ (fl : Float64) {S : Type 0} (cs : CounterStore fl.F S) (format : Bytes → ℕ → Bytes)
    (now : ℕ) (laws : CounterLaws cs now) where
  open laws use {IsGood, IsLive, usage}

  -- what `n` tokens for each window add to the count at a key, under the keys of a reservation
  abbrev pub share : Reservation → ℕ → Bytes → List Window → ℕ
  share r = charge fl cs format now laws r.keys r.created_at

  abbrev pub window_key : Reservation → Window → Bytes
  window_key r w = Limiter.token_key fl cs format r.keys w r.created_at

  settle_window :
      (r : Reservation) (a n : ℕ) (w : Window) (ws : List Window) (s : S) (base : Bytes → ℕ)
      → a < 2 ^ 63
      → n < 2 ^ 63
      → IsGood s
      → IsLive s (window_key r w)
      → ((j : Bytes) → usage s j ≡ base j + share r n j (w ∷ ws))
      → base (window_key r w) + share r n (window_key r w) (w ∷ ws) + a < 2 ^ 63
      → let s' = cs.reconcile now (window_key r w) (wrap64 (pos a -ℤ pos n)) w s in
        IsGood s'
        × ((j : Bytes) → IsLive s j → IsLive s' j)
        × ((j : Bytes)
            → usage s' j ≡ base j + (if window_key r w ≟ j then a else 0) + share r n j ws)
  unfolding charge
  settle_window r a n w ws s base ha hn g l u room =
      let (d, da, dn) = difference a n ha hn in
      let (g', l', u') =
        laws.reconcile_live (window_key r w) (wrap64 (pos a -ℤ pos n)) w s g l
          (omega (arith, d, da, u (window_key r w), room)) (omega (arith, dn)) in
      (g', l', λ j. ground (arith, u' j, u j, d, da, dn))

  settle-usage :
      (r : Reservation) (a n : ℕ) (ws : List Window) (s : S) (base : Bytes → ℕ)
      → a < 2 ^ 63
      → n < 2 ^ 63
      → IsGood s
      → All (λ w. IsLive s (window_key r w)) ws
      → ((j : Bytes) → usage s j ≡ base j + share r n j ws)
      → ((j : Bytes) → base j + share r n j ws + share r a j ws < 2 ^ 63)
      → let s' =
          Limiter.settle fl cs format r.keys r.created_at (wrap64 (pos a -ℤ pos n)) now ws s in
        IsGood s' × ((j : Bytes) → usage s' j ≡ base j + share r a j ws)
  unfolding Limiter.settle charge
  settle-usage r a n [] s base ha hn g l u room = (g, λ j. omega (arith, u j))
  settle-usage r a n (w ∷ ws) s base ha hn g (l, ls) u room =
      let k = window_key r w in
      let (g', l', u') =
        settle_window r a n w ws s base ha hn g l u (ground (arith, room k, ≟_refl k)) in
      let (g'', u'') =
        settle-usage r a n ws _ (λ j. base j + (if k ≟ j then a else 0)) ha hn g'
          (All-map (λ v. l' (window_key r v)) ws ls) u' (λ j. omega (arith, room j)) in
      (g'', λ j. omega (arith, u'' j))

  -- For a reservation of `n` tokens that the limiter holds, whose windows are all live, Reconcile with
  -- the actual number `a` succeeds, drops the reservation, and at every key puts `a` in the place of
  -- `n` once for each window; `base` is the count without the reservation, and the sums stay below
  -- 2^63.
  pub reconcile-usage :
      (l : Limiter fl.F S) (id : Bytes) (r : Reservation) (a n : ℕ) (base : Bytes → ℕ)
      → lookup id l.reservations ≡ some r
      → r.reserved_tokens ≡ pos n
      → a < 2 ^ 63
      → n < 2 ^ 63
      → IsGood l.store
      → All (λ w. IsLive l.store (window_key r w)) r.windows
      → ((j : Bytes) → usage l.store j ≡ base j + share r n j r.windows)
      → ((j : Bytes) → base j + share r n j r.windows + share r a j r.windows < 2 ^ 63)
      → let (found, l') = Limiter.reconcile fl cs format l id (pos a) now in
        (found ≡ true)
        × (lookup id l'.reservations ≡ none)
        × ((j : Bytes) → usage l'.store j ≡ base j + share r a j r.windows)
  unfolding Limiter.reconcile
  reconcile-usage l id r a n base e t ha hn g live u room =
      simp (e, Limiter.settle_found)
        (refl, gone l id, simp t (settle-usage r a n r.windows l.store base ha hn g live u room).1)
    where
      gone : (l : Limiter fl.F S) (id : Bytes) → lookup id (delete id l.reservations) ≡ none
      gone l id = rw (lookup-delete id id l.reservations, ≟_refl id)
