-- ===== src/Samples/Authn.antt =====
-- The revocation list at concrete inputs.
use torana_enterprise.Prelude.{◌≡◌, ◌||◌, List, [], ◌∷◌, some}
use torana_enterprise.Prelude.Bytes.{bytes}
use torana_enterprise.Authn.Revocation.{
  Event, applies, revokes_token, subscribes, is_revoked, new_revocation_list, run, any_names,
  is_revoked-run, is_revoked-kinds, is_token_revoked, is_key_revoked,
}

abbrev events : List Event
events =
    subscribes 1
    ∷ revokes_token (bytes "t1")
    ∷ applies (some (record { revoked_tokens = []; revoked_keys = bytes "k1" ∷ [] }))
    ∷ []

is_revoked-run_example :
    is_revoked (bytes "k1") (run events new_revocation_list) ≡ any_names (bytes "k1") events
is_revoked-run_example = is_revoked-run 107 (49 ∷ []) events

is_revoked-kinds_example : is_revoked (bytes "k1") (run events new_revocation_list) ≡ (
    is_token_revoked (bytes "k1") (run events new_revocation_list)
    || is_key_revoked (bytes "k1") (run events new_revocation_list))
is_revoked-kinds_example = is_revoked-kinds (bytes "k1") (run events new_revocation_list)
