-- ===== src/Authz/Types.antt =====
-- The data of authorization (internal/security/authz/types.go and compiler.go). A compiled CEL program
-- is the function that evaluates it, since the CEL library is not part of the repository.
use torana_enterprise.Prelude.{ℕ, Bool, ◌||◌, List}
use torana_enterprise.Prelude.Int.{ℤ}
use torana_enterprise.Prelude.Maps.{◌≟◌}
use torana_enterprise.Prelude.Bytes.{Bytes, bytes, bytes_key}
use torana_enterprise.Prelude.Json.{Json, Fields}

pub data Effect : Type 0 where
  allow deny : Effect
  other : Bytes → Effect

unfoldable pub valid_resource_type : Bytes → Bool
valid_resource_type t =
    t ≟ bytes "route"
    || t ≟ bytes "mcp_tool"
    || t ≟ bytes "llm_model"
    || t ≟ bytes "db_query"
    || t ≟ bytes "a2a_skill"

pub record Resource : Type 0 where
  pub kind : Bytes
  pub id : Bytes
  pub namespace : Bytes
  pub properties : List (Bytes × Json)

pub record Action : Type 0 where
  pub name : Bytes
  pub method : Bytes

pub record RequestAttributes : Type 0 where
  pub path : Bytes
  pub method : Bytes
  pub host : Bytes
  pub remote_ip : Bytes
  pub headers : List (Bytes × Bytes)
  pub time : ℕ

pub record Rule : Type 0 where
  pub id : Bytes
  pub priority : ℤ
  pub effect : Effect
  pub expression : Bytes

pub record DecisionLog : Type 0 where
  pub timestamp : ℕ
  pub rule_id : Bytes
  pub effect : Effect
  pub reason : Bytes
  pub latency : ℕ
  pub subject : Bytes
  pub tenant : Bytes
  pub resource_type : Bytes
  pub resource_id : Bytes
  pub action : Bytes

-- what a CEL program sees
pub record EvalContext : Type 0 where
  pub identity : Fields
  pub resource : Fields
  pub action : Fields
  pub request : Fields

-- what its evaluation returns: an error, a boolean, or a value of another type
pub data EvalResult : Type 0 where
  failure : Bytes → EvalResult
  answer : Bool → EvalResult
  no_bool : EvalResult

pub record CompiledRule : Type 0 where
  pub rule : Rule
  pub program : EvalContext → EvalResult
