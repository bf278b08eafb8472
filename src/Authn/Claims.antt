-- ===== src/Authn/Claims.antt =====
-- What the claims of a token say (internal/security/authn/jwt.go: parseNumericDate, matchAudience,
-- buildIdentityFromClaims). Claims are JSON: a number is a float64, of which only the integer part is
-- kept, and there are no values of the other types that the code allows for. A time is the number of
-- nanoseconds since the Unix epoch, before or after it.
use torana_enterprise.Prelude.{
  ◌-◌, ◌^◌, Bool, false, List, [], ◌∷◌, ◌++◌, Option, none, some, ◌||◌, ◌&&◌, if◌then◌else◌,
}
use torana_enterprise.Prelude.Int.{ℤ, pos, negsuc, wrap64, ◌+ℤ◌, ◌-ℤ◌, ◌*ℤ◌, leb_ℤ, ltb_ℤ}
use torana_enterprise.Prelude.Maps.{◌≟◌, lookup}
use torana_enterprise.Prelude.Bytes.{Bytes, bytes, bytes_key, fields}
use torana_enterprise.Prelude.Json.{Json, num, str, arr, obj, Items, nil, cons, Fields, end, field}
use torana_enterprise.Authn.Identity.{Identity}

abbrev pub Claims : Type 0
Claims = List (Bytes × Json)

abbrev pub nanoseconds : ℤ → ℤ
nanoseconds n = n *ℤ pos 1000000000

-- int64 of a float64 with this integer part; `overflow` is what the machine makes of one out of range
unfoldable pub to_int64 : (ℤ → ℤ) → ℤ → ℤ
to_int64 overflow n =
    if leb_ℤ (negsuc (2 ^ 63 - 1)) n && ltb_ℤ n (pos (2 ^ 63)) then n else overflow n

-- time.Unix: the seconds since the year 1 are kept in an int64
unfoldable pub unix_time : ℤ → ℤ
unix_time s = nanoseconds (wrap64 (s +ℤ pos 62135596800) -ℤ pos 62135596800)

unfoldable pub parse_numeric_date : (ℤ → ℤ) → Json → Option ℤ
unfolding to_int64 unix_time
parse_numeric_date overflow (num n) = some (unix_time (to_int64 overflow n))
parse_numeric_date overflow _ = none

text_in : Option Json → Option Bytes
text_in (some (str s)) = some s
text_in _ = none

-- claims[key].(string)
unfoldable pub text_claim : Bytes → Claims → Option Bytes
unfolding text_in
text_claim key claims = text_in (lookup key claims)

is_expected : Bytes → List Bytes → Bool
is_expected a [] = false
is_expected a (e ∷ es) = a ≟ e || is_expected a es

any_expected : Items → List Bytes → Bool
unfolding is_expected
any_expected nil es = false
any_expected (cons (str s) items) es = is_expected s es || any_expected items es
any_expected (cons _ items) es = any_expected items es

unfoldable pub match_audience : Option Json → List Bytes → Bool
unfolding any_expected
match_audience (some (str s)) es = is_expected s es
match_audience (some (arr items)) es = any_expected items es
match_audience _ es = false

or_empty : Option Bytes → Bytes
or_empty none = []
or_empty (some s) = s

-- the first of the keys with a text that is not empty, or that of the issuer
or_later : Option Bytes → Bytes → Bytes
or_later none later = later
or_later (some []) later = later
or_later (some (c ∷ s)) later = c ∷ s

tenant_among : List Bytes → Claims → Bytes
unfolding or_empty or_later
tenant_among [] claims = or_empty (text_claim (bytes "iss") claims)
tenant_among (k ∷ ks) claims = or_later (text_claim k claims) (tenant_among ks claims)

texts_in : Items → List Bytes
texts_in nil = []
texts_in (cons (str s) items) = s ∷ texts_in items
texts_in (cons _ items) = texts_in items

field_of : Bytes → Fields → Option Json
field_of key end = none
field_of key (field k v fs) = if k ≟ key then some v else field_of key fs

roles_in : Option Json → List Bytes
unfolding texts_in
roles_in (some (arr items)) = texts_in items
roles_in _ = []

groups_in : Option Json → List Bytes
unfolding texts_in roles_in field_of
groups_in (some (arr items)) = texts_in items
groups_in (some (obj fs)) = roles_in (field_of (bytes "roles") fs)
groups_in _ = []

groups_among : List Bytes → Claims → List Bytes
unfolding groups_in
groups_among [] claims = []
groups_among (k ∷ ks) claims = groups_in (lookup k claims) ++ groups_among ks claims

scopes_in : Option Json → Option Json → List Bytes
unfolding roles_in
scopes_in (some (str s)) scp = fields s
scopes_in (some _) scp = []
scopes_in none scp = roles_in scp

-- with the authentication method that ValidateToken sets
unfoldable pub build_identity_from_claims : Claims → Identity
unfolding or_empty tenant_among groups_among scopes_in
build_identity_from_claims claims = record {
  subject = or_empty (text_claim (bytes "sub") claims);
  tenant =
      tenant_among
        (bytes "tenant"
          ∷ bytes "tenant_id"
          ∷ bytes "tid"
          ∷ bytes "org_id"
          ∷ bytes "organization"
          ∷ [])
        claims;
  groups = groups_among (bytes "groups" ∷ bytes "roles" ∷ bytes "realm_access" ∷ []) claims;
  scopes = scopes_in (lookup (bytes "scope") claims) (lookup (bytes "scp") claims);
  claims = claims;
  auth_method = bytes "jwt";
}
