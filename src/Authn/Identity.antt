-- ===== src/Authn/Identity.antt =====
-- The authenticated caller (internal/security/authn/identity.go). `show` stands for what fmt makes of a
-- value under %v.
use torana_enterprise.Prelude.{Bool, false, List, [], ◌∷◌, Option, none, some, ◌||◌}
use torana_enterprise.Prelude.Maps.{◌≟◌, lookup}
use torana_enterprise.Prelude.Bytes.{Bytes, bytes_key}
use torana_enterprise.Prelude.Json.{Json, str}

pub record Identity : Type 0 where
  pub subject : Bytes
  pub tenant : Bytes
  pub groups : List Bytes
  pub scopes : List Bytes
  pub claims : List (Bytes × Json)
  pub auth_method : Bytes

unfoldable pub new_identity : Bytes → Bytes → Bytes → Identity
new_identity subject tenant auth_method = record {
  subject = subject;
  tenant = tenant;
  groups = [];
  scopes = [];
  claims = [];
  auth_method = auth_method;
}

-- slices.Contains
contains : Bytes → List Bytes → Bool
contains x [] = false
contains x (y ∷ ys) = y ≟ x || contains x ys

unfoldable pub has_scope : Bytes → Option Identity → Bool
unfolding contains
has_scope scope none = false
has_scope scope (some i) = contains scope i.scopes

unfoldable pub in_group : Bytes → Option Identity → Bool
unfolding contains
in_group group none = false
in_group group (some i) = contains group i.groups

unfoldable pub get_claim : Bytes → Option Identity → Option Json
get_claim key none = none
get_claim key (some i) = lookup key i.claims

-- a claim as text
unfoldable pub claim_text : (Json → Bytes) → Json → Bytes
claim_text show (str s) = s
claim_text show other = show other

text_or_empty : (Json → Bytes) → Option Json → Bytes
text_or_empty show none = []
text_or_empty show (some v) = claim_text show v

unfoldable pub get_claim_string : (Json → Bytes) → Bytes → Option Identity → Bytes
unfolding text_or_empty
get_claim_string show key i = text_or_empty show (get_claim key i)

-- Clone: the copy shares nothing that is changed afterwards
unfoldable pub clone : Option Identity → Option Identity
clone none = none
clone (some i) = some (record {
  subject = i.subject;
  tenant = i.tenant;
  groups = i.groups;
  scopes = i.scopes;
  claims = i.claims;
  auth_method = i.auth_method;
})
