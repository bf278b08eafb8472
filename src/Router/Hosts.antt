-- ===== src/Router/Hosts.antt =====
-- matchHost, normalizeHost and normalizeMethod (internal/router/router.go).
use torana_enterprise.Prelude.{Bool, true, false, [], ◌∷◌, ◌||◌, if◌then◌else◌}
use torana_enterprise.Prelude.Maps.{◌≟◌}
use torana_enterprise.Prelude.Bytes.{
  Bytes, bytes, bytes_key, before_byte, to_lower, to_upper, has_prefix, has_suffix,
}

unfoldable pub normalize_host : Bytes → Bytes
normalize_host [] = bytes "*"
normalize_host (c ∷ s) = to_lower (before_byte b':' (c ∷ s))

-- pattern[1:]
drop_one : Bytes → Bytes
drop_one [] = []
drop_one (c ∷ s) = s

-- on a pattern and a host that are normalized
unfoldable pub match_normal : Bytes → Bytes → Bool
unfolding drop_one
match_normal pattern host =
    if pattern ≟ host || pattern ≟ bytes "*" || pattern ≟ []
    then true
    else if has_prefix pattern (bytes "*.")
    then has_suffix host (drop_one pattern)
    else false

unfoldable pub match_host : Bytes → Bytes → Bool
match_host pattern host = match_normal (normalize_host pattern) (normalize_host host)

known_method : Bytes → Bool
known_method m =
    m ≟ bytes "GET"
    || m ≟ bytes "POST"
    || m ≟ bytes "PUT"
    || m ≟ bytes "DELETE"
    || m ≟ bytes "PATCH"
    || m ≟ bytes "HEAD"
    || m ≟ bytes "OPTIONS"
    || m ≟ bytes "*"

unfoldable pub normalize_method : Bytes → Bytes
unfolding known_method
normalize_method m = if known_method m then m else if m ≟ [] then bytes "*" else to_upper m

-- strings.EqualFold, on ASCII
unfoldable pub equal_fold : Bytes → Bytes → Bool
equal_fold a b = to_lower a ≟ to_lower b
