-- ===== src/Limits/Store/Quota.antt =====
-- Reserve of LocalCounterStore within the quota of one gateway (internal/limits/store.go).
use torana_enterprise.Prelude.{
  ℕ, ◌+◌, ◌^◌, ◌≤◌, ◌<◌, ◌≡◌, refl, sym, ap, subst, ◌∙◌, Bool, false, Option, none, some, inl, inr,
  arith, Bool-cases, ltb, not, if◌then◌else◌,
}
use torana_enterprise.Prelude.Int.{ℤ, pos, pos_part, neg_part, wrap64, ◌+ℤ◌, ◌-ℤ◌, ltb_ℤ}
use torana_enterprise.Prelude.Maps.{◌≟◌, ≟_refl, ≟_iff, lookup, insert, lookup-insert}
use torana_enterprise.Prelude.Bytes.{Bytes, bytes_key}
use torana_enterprise.Prelude.Float.{Float64}
use torana_enterprise.Limits.Types.{Window, duration, refused}
use torana_enterprise.Limits.Store.{
  WindowCounter, LocalCounterStore, local_limit, counter_at, renew, store_counter, reserve_counter,
  reserve,
}

abbrev pub tokens : ℕ → Option WindowCounter → ℕ
tokens now none = 0
tokens now (some wc) = if ltb wc.expires_at now then 0 else pos_part wc.used

abbrev pub Sane : Option WindowCounter → Type 0
Sane none = Unit
Sane (some wc) = (neg_part wc.used ≡ 0) × (pos_part wc.used < 2 ^ 63)

abbrev pub Live : ℕ → Option WindowCounter → Type 0
Live now none = ⊥
Live now (some wc) = now ≤ wc.expires_at

room_left :
    (q n u : ℕ) → q < 2 ^ 63 → u < 2 ^ 63 → ltb_ℤ (wrap64 (pos q -ℤ pos u)) (pos n) ≡ ltb q (u + n)
unfolding wrap64 ◌-ℤ◌
room_left q n u hq hu = ground arith

used_sum : (q n u : ℕ) → q < 2 ^ 63 → ltb q (u + n) ≡ false → wrap64 (pos u +ℤ pos n) ≡ pos (u + n)
unfolding wrap64 ◌+ℤ◌
used_sum q n u hq h = ground arith

module _ (fl : Float64) (now : ℕ) where
  abbrev Store : Type 0
  Store = LocalCounterStore fl.F

  pub record IsGood (s : Store) : Type 0 where
    pub sane : (k : Bytes) → Sane (lookup k s.counters)

  unfoldable pub IsLive : Store → Bytes → Type 0
  IsLive s k = Live now (lookup k s.counters)

  -- the tokens that count at `now`
  unfoldable pub usage : Store → Bytes → ℕ
  usage s k = tokens now (lookup k s.counters)

  pub usage-store_counter :
      (s : Store) (k : Bytes) (wc : WindowCounter) (j : Bytes)
      → usage (store_counter fl s k wc) j ≡ (if k ≟ j then tokens now (some wc) else usage s j)
  unfolding usage store_counter
  usage-store_counter s k wc j = ground (arith, lookup-insert k j wc s.counters)

  pub store_counter-IsGood :
      (s : Store) (k : Bytes) (wc : WindowCounter)
      → IsGood s
      → Sane (some wc)
      → IsGood (store_counter fl s k wc)
  unfolding store_counter
  store_counter-IsGood s k wc g h = record { sane = at }
    where
      at : (j : Bytes) → Sane (lookup j (insert k wc s.counters))
      at j = elim (Bool-cases (k ≟ j)) [
        | inl t ↦ rw (lookup-insert k j wc s.counters, t) h
        | inr t ↦ rw (lookup-insert k j wc s.counters, t) (g.sane j)
      ]

  pub store_counter-IsLive :
      (s : Store) (k : Bytes) (wc : WindowCounter) (j : Bytes)
      → Live now (some wc)
      → IsLive s j
      → IsLive (store_counter fl s k wc) j
  unfolding store_counter IsLive
  store_counter-IsLive s k wc j h l = elim (Bool-cases (k ≟ j)) [
    | inl t ↦ rw (lookup-insert k j wc s.counters, t) h
    | inr t ↦ rw (lookup-insert k j wc s.counters, t) l
  ]

  store_counter-IsLive_self :
      (s : Store) (k : Bytes) (wc : WindowCounter)
      → Live now (some wc)
      → IsLive (store_counter fl s k wc) k
  unfolding store_counter IsLive
  store_counter-IsLive_self s k wc h = rw (lookup-insert k k wc s.counters, ≟_refl k) h

  -- The counter that a call of Reserve works on is live, and counts what the key counts.
  renewed_from :
      (w : Window) (o : Option WindowCounter)
      → Sane o
      → let wc =
          renew fl now w (elim o [
            | some c ↦ c
            | none ↦ record { used = pos 0; expires_at = now + duration w }
          ]) in
        Live now (some wc) × Sane (some wc) × (wc.used ≡ pos (tokens now o))
  unfolding renew
  renewed_from w none h = ground arith
  renewed_from w (some wc) h = ground arith

  renewed :
      (s : Store) (k : Bytes) (w : Window)
      → IsGood s
      → let wc = renew fl now w (counter_at fl s now k w) in
        Live now (some wc) × Sane (some wc) × (wc.used ≡ pos (usage s k))
  unfolding counter_at usage
  renewed s k w g = renewed_from w (lookup k s.counters) (g.sane k)

  -- The second half of Reserve on a live counter with `u` tokens, under a quota `q`.
  counter_reserved :
      (q n u : ℕ) (limit : ℤ) (w : Window) (wc : WindowCounter)
      → q < 2 ^ 63
      → u < 2 ^ 63
      → wc.used ≡ pos u
      → let (r, wc') = reserve_counter fl now (pos q) (pos n) limit w wc in
        (r.allowed ≡ not (ltb q (u + n)))
        × (wc'.expires_at ≡ wc.expires_at)
        × (wc'.used ≡ pos (if ltb q (u + n) then u else u + n))
  unfolding reserve_counter
  counter_reserved q n u limit w wc hq hu e = elim (Bool-cases (ltb q (u + n))) [
    | inl t ↦ let over = room_left q n u hq hu ∙ t in simp (t, e, over) (refl, refl, refl)
    | inr t ↦
        let fits = room_left q n u hq hu ∙ t in simp (t, e, fits) (refl, refl, used_sum q n u hq t)
  ]

not-not : {a b : Bool} → a ≡ not b → not a ≡ b
not-not {a} {b} h = ground arith

sum_below : (q n u : ℕ) → q < 2 ^ 63 → u < 2 ^ 63 → (if ltb q (u + n) then u else u + n) < 2 ^ 63
sum_below q n u hq hu = ground arith

-- A live counter written back, with `n` more tokens or, if the quota is passed, with what it had.
module _ (fl : Float64) (now : ℕ) where
  written :
      (s : LocalCounterStore fl.F) (k : Bytes) (wc : WindowCounter) (over : Bool) (n : ℕ)
      → IsGood fl now s
      → now ≤ wc.expires_at
      → wc.used ≡ pos (if over then usage fl now s k else usage fl now s k + n)
      → (if over then usage fl now s k else usage fl now s k + n) < 2 ^ 63
      → let s' = store_counter fl s k wc in
        IsGood fl now s'
        × IsLive fl now s' k
        × ((j : Bytes) → IsLive fl now s j → IsLive fl now s' j)
        × ((j : Bytes)
            → usage fl now s' j ≡ usage fl now s j + (if k ≟ j then (if over then 0 else n) else 0))
  written s k wc over n g l v below = (
    store_counter-IsGood fl now s k wc g (ground arith, ground arith),
    store_counter-IsLive_self fl now s k wc l,
    (λ j. store_counter-IsLive fl now s k wc j l),
    λ j. counts j,
  )
    where
      counts :
          (j : Bytes)
          → usage fl now (store_counter fl s k wc) j
            ≡ usage fl now s j + (if k ≟ j then (if over then 0 else n) else 0)
      counts j = ground (
        arith,
        usage-store_counter fl now s k wc j,
        (≟_iff k j).0,
        ap (usage fl now s) {x = k} {y = j},
        v,
      )

module _ (fl : Float64) (now : ℕ) where
  -- A good store, where the quota of this gateway is computed as some `q` below 2^63: Reserve of `n`
  -- tokens is granted exactly if what the key counts and `n` are within `q`; then the key counts `n`
  -- more, and else nothing changes. The other keys count what they did, and the key has a counter that
  -- has not expired.
  pub reserve-usage :
      (k : Bytes) (n q : ℕ) (limit : ℤ) (w : Window) (s : LocalCounterStore fl.F)
      → IsGood fl now s
      → local_limit fl limit s.peer_count ≡ pos q
      → q < 2 ^ 63
      → let (res, s') = reserve fl now k (pos n) limit w s in
        let over = ltb q (usage fl now s k + n) in
        (refused res ≡ over)
        × IsGood fl now s'
        × IsLive fl now s' k
        × ((j : Bytes) → IsLive fl now s j → IsLive fl now s' j)
        × ((j : Bytes)
            → usage fl now s' j ≡ usage fl now s j + (if k ≟ j then (if over then 0 else n) else 0))
  unfolding reserve
  reserve-usage k n q limit w s g e hq =
      let wc = renew fl now w (counter_at fl s now k w) in
      let (l, sane, u) = renewed fl now s k w g in
      let hu : usage fl now s k < 2 ^ 63 = subst (λ z. pos_part z < 2 ^ 63) u sane.1 in
      let (r, x, v) = counter_reserved fl now q n (usage fl now s k) limit w wc hq hu u in
      let (a, b, c, d) =
        written fl now s k (reserve_counter fl now (pos q) (pos n) limit w wc).1
          (ltb q (usage fl now s k + n)) n g (subst (λ z. now ≤ z) (sym x) l) v
          (sum_below q n (usage fl now s k) hq hu) in
      rw e (not-not r, a, b, c, d)
