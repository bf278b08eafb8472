-- ===== src/Authn/Revocation.antt =====
-- RevocationList of internal/security/authn/revocation.go. A Go set is a list without order; a
-- subscriber is its number, with whether a signal waits in its channel, whose capacity is 1.
use torana_enterprise.Prelude.{
  ℕ, ◌≡◌, refl, ◌∙◌, ap, Bool, true, false, List, [], ◌∷◌, Option, none, some, ◌||◌, arith,
  Bool-cases, if◌then◌else◌, map, inl, inr,
}
use torana_enterprise.Prelude.Maps.{◌≟◌, nat_key, insert, delete, lookup, lookup-insert}
use torana_enterprise.Prelude.Bytes.{Bytes, bytes_key, bytes_eq}

pub record RevocationList : Type 0 where
  pub tokens : List (Bytes × Unit {0})
  pub keys : List (Bytes × Unit {0})
  pub subscribers : List (ℕ × Bool)

-- The message of the control plane.
pub record Revocation : Type 0 where
  pub revoked_tokens : List Bytes
  pub revoked_keys : List Bytes

pub new_revocation_list : RevocationList
new_revocation_list = record { tokens = []; keys = []; subscribers = [] }

signal : ℕ × Bool → ℕ × Bool
signal (ch, pending) = (ch, true)

notify : RevocationList → RevocationList
unfolding signal
notify r = record r { subscribers = map signal r.subscribers }

-- the comma-ok form of a lookup
is_some : Option (Unit {0}) → Bool
is_some none = false
is_some (some u) = true

has : Bytes → List (Bytes × Unit {0}) → Bool
unfolding is_some
has k m = is_some (lookup k m)

add : Bytes → List (Bytes × Unit {0}) → List (Bytes × Unit {0})
add [] m = m
add (c ∷ s) m = insert (c ∷ s) tt m

add_all : List Bytes → List (Bytes × Unit {0}) → List (Bytes × Unit {0})
unfolding add
add_all [] m = m
add_all (k ∷ ks) m = add_all ks (add k m)

apply_revocation : Option Revocation → RevocationList → RevocationList
unfolding notify add_all
apply_revocation none r = r
apply_revocation (some rev) r = notify (record r {
  tokens = add_all rev.revoked_tokens r.tokens;
  keys = add_all rev.revoked_keys r.keys;
})

revoke_token : Bytes → RevocationList → RevocationList
unfolding notify
revoke_token [] r = r
revoke_token (c ∷ s) r = notify (record r { tokens = insert (c ∷ s) tt r.tokens })

revoke_key : Bytes → RevocationList → RevocationList
unfolding notify
revoke_key [] r = r
revoke_key (c ∷ s) r = notify (record r { keys = insert (c ∷ s) tt r.keys })

unfoldable pub is_token_revoked : Bytes → RevocationList → Bool
unfolding has
is_token_revoked [] r = false
is_token_revoked (c ∷ s) r = has (c ∷ s) r.tokens

unfoldable pub is_key_revoked : Bytes → RevocationList → Bool
unfolding has
is_key_revoked [] r = false
is_key_revoked (c ∷ s) r = has (c ∷ s) r.keys

unfoldable pub is_revoked : Bytes → RevocationList → Bool
unfolding has
is_revoked [] r = false
is_revoked (c ∷ s) r = if has (c ∷ s) r.tokens then true else has (c ∷ s) r.keys

-- Subscribe with a fresh channel, and the function that it returns
subscribe : ℕ → RevocationList → RevocationList
subscribe ch r = record r { subscribers = insert ch false r.subscribers }

unsubscribe : ℕ → RevocationList → RevocationList
unsubscribe ch r = record r { subscribers = delete ch r.subscribers }

pub data Event : Type 0 where
  applies : Option Revocation → Event
  revokes_token revokes_key : Bytes → Event
  subscribes unsubscribes : ℕ → Event

handle : Event → RevocationList → RevocationList
unfolding apply_revocation revoke_token revoke_key subscribe unsubscribe
handle (applies rev) r = apply_revocation rev r
handle (revokes_token t) r = revoke_token t r
handle (revokes_key k) r = revoke_key k r
handle (subscribes ch) r = subscribe ch r
handle (unsubscribes ch) r = unsubscribe ch r

pub run : List Event → RevocationList → RevocationList
unfolding handle
run [] r = r
run (e ∷ es) r = run es (handle e r)

-- what the events name, as tokens and as keys
is_in : Bytes → List Bytes → Bool
is_in k [] = false
is_in k (j ∷ ks) = (j ≟ k) || is_in k ks

names : Bytes → Event → Bool
unfolding is_in
names k (applies none) = false
names k (applies (some rev)) = is_in k rev.revoked_tokens || is_in k rev.revoked_keys
names k (revokes_token t) = t ≟ k
names k (revokes_key t) = t ≟ k
names k (subscribes ch) = false
names k (unsubscribes ch) = false

pub any_names : Bytes → List Event → Bool
unfolding names
any_names k [] = false
any_names k (e ∷ es) = names k e || any_names k es

has-insert :
    (k j : Bytes) (m : List (Bytes × Unit {0})) → has k (insert j tt m) ≡ ((j ≟ k) || has k m)
unfolding has
has-insert k j m =
    ap is_some (lookup-insert j k tt m)
    ∙ elim (Bool-cases (j ≟ k)) [ inl t ↦ rw t refl | inr t ↦ rw t refl ]

has-add_all :
    (c : ℕ) (s : Bytes) (ks : List Bytes) (m : List (Bytes × Unit {0}))
    → has (c ∷ s) (add_all ks m) ≡ (is_in (c ∷ s) ks || has (c ∷ s) m)
unfolding add_all is_in add bytes_eq
has-add_all c s [] m = refl
has-add_all c s ([] ∷ ks) m = has-add_all c s ks m
has-add_all c s ((d ∷ t) ∷ ks) m =
    ground (arith, has-add_all c s ks (insert (d ∷ t) tt m), has-insert (c ∷ s) (d ∷ t) m)

is_revoked-handle :
    (c : ℕ) (s : Bytes) (e : Event) (r : RevocationList)
    → is_revoked (c ∷ s) (handle e r) ≡ (names (c ∷ s) e || is_revoked (c ∷ s) r)
unfolding is_revoked handle names apply_revocation revoke_token revoke_key subscribe unsubscribe
    notify bytes_eq
is_revoked-handle c s (applies none) r = refl
is_revoked-handle c s (applies (some rev)) r =
    ground
      (arith, has-add_all c s rev.revoked_tokens r.tokens, has-add_all c s rev.revoked_keys r.keys)
is_revoked-handle c s (revokes_token []) r = refl
is_revoked-handle c s (revokes_token (d ∷ t)) r =
    ground (arith, has-insert (c ∷ s) (d ∷ t) r.tokens)
is_revoked-handle c s (revokes_key []) r = refl
is_revoked-handle c s (revokes_key (d ∷ t)) r = ground (arith, has-insert (c ∷ s) (d ∷ t) r.keys)
is_revoked-handle c s (subscribes ch) r = refl
is_revoked-handle c s (unsubscribes ch) r = refl

run-any_names :
    (c : ℕ) (s : Bytes) (es : List Event) (r : RevocationList)
    → is_revoked (c ∷ s) (run es r) ≡ (any_names (c ∷ s) es || is_revoked (c ∷ s) r)
unfolding run any_names
run-any_names c s [] r = refl
run-any_names c s (e ∷ es) r =
    ground (arith, run-any_names c s es (handle e r), is_revoked-handle c s e r)

is_revoked-new_revocation_list :
    (c : ℕ) (s : Bytes) → is_revoked (c ∷ s) new_revocation_list ≡ false
unfolding is_revoked new_revocation_list has is_some lookup
is_revoked-new_revocation_list c s = refl

-- After any events from a new list, an identifier that is not empty is revoked exactly if some of
-- them named it as a token or as a key.
pub is_revoked-run :
    (c : ℕ) (s : Bytes) (es : List Event)
    → is_revoked (c ∷ s) (run es new_revocation_list) ≡ any_names (c ∷ s) es
is_revoked-run c s es =
    ground (arith, run-any_names c s es new_revocation_list, is_revoked-new_revocation_list c s)

-- IsRevoked answers for any identifier, the empty one included, whether IsTokenRevoked or IsKeyRevoked
-- does.
pub is_revoked-kinds :
    (k : Bytes) (r : RevocationList) → is_revoked k r ≡ (is_token_revoked k r || is_key_revoked k r)
unfolding is_revoked is_token_revoked is_key_revoked
is_revoked-kinds [] r = refl
is_revoked-kinds (c ∷ s) r = ground arith
