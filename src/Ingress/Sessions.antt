-- ===== src/Ingress/Sessions.antt =====
-- Session and SessionManager of internal/ingress/mcp/session.go. A cancel function is its number; what
-- CancelRequest calls is part of its answer. Sessions are changed in the table, under the client's id, so
-- that a caller who holds one after its deletion is not modelled. Times and the TTL are nanoseconds.
pub mod Cancel
use torana_enterprise.Prelude.{
  ℕ, suc, ◌+◌, ◌-◌, Bool, true, false, List, [], ◌∷◌, ◌++◌, Option, none, some, ltb, if◌then◌else◌,
}
use torana_enterprise.Prelude.Int.{ℤ, pos, pos_part, leb_ℤ}
use torana_enterprise.Prelude.Maps.{◌≟◌, lookup, insert, delete}
use torana_enterprise.Prelude.Bytes.{Bytes, bytes, bytes_key}
use torana_enterprise.Prelude.Decimal.{format_ℕ}

pub record Session : Type 0 where
  pub client_session_id : Bytes
  pub upstream_session_id : Bytes
  pub created_at : ℕ
  pub last_active : ℕ
  pub in_flight : List (Bytes × ℕ)

unfoldable pub register_cancel : Bytes → ℕ → Session → Session
register_cancel req cancel s = record s { in_flight = insert req cancel s.in_flight }

unfoldable pub unregister_cancel : Bytes → Session → Session
unregister_cancel req s = record s { in_flight = delete req s.in_flight }

cancelled : Bytes → Session → Option ℕ → Option ℕ × Session
cancelled req s none = (none, s)
cancelled req s (some cancel) = (some cancel, record s { in_flight = delete req s.in_flight })

-- the function that is called, if the answer is true
unfoldable pub cancel_request : Bytes → Session → Option ℕ × Session
unfolding cancelled
cancel_request req s = cancelled req s (lookup req s.in_flight)

pub record SessionManager : Type 0 where
  pub sessions : List (Bytes × Session)
  pub ttl : ℕ

unfoldable pub new_session_manager : ℤ → SessionManager
new_session_manager ttl = record {
  sessions = [];
  ttl = if leb_ℤ ttl (pos 0) then 1800000000000 else pos_part ttl;
}

or_generated : Bytes → ℕ → Bytes → Bytes
or_generated prefix now [] = prefix ++ format_ℕ now
or_generated prefix now (c ∷ s) = c ∷ s

-- an upstream session for one that has none
with_upstream : Bytes → Session → Session
with_upstream id s = if s.upstream_session_id ≟ [] then record s { upstream_session_id = id } else s

get_or_insert : Bytes → Bytes → ℕ → Option Session → SessionManager → Session × SessionManager
unfolding with_upstream
get_or_insert client upstream now (some s) m =
    let s' : Session = with_upstream upstream (record s { last_active = now }) in
    (s', record m { sessions = insert client s' m.sessions })
get_or_insert client upstream now none m =
    let s' : Session = record {
      client_session_id = client;
      upstream_session_id = upstream;
      created_at = now;
      last_active = now;
      in_flight = [];
    } in
    (s', record m { sessions = insert client s' m.sessions })

-- GetOrCreate, with the id of the client
unfoldable pub get_or_create : Bytes → Bytes → ℕ → SessionManager → Session × SessionManager
unfolding or_generated get_or_insert
get_or_create client upstream now m =
    let id = or_generated (bytes "mcp-client-") now client in
    get_or_insert id (or_generated (bytes "mcp-up-") now upstream) now (lookup id m.sessions) m

touched : Bytes → ℕ → Option Session → SessionManager → Option Session × SessionManager
touched client now none m = (none, m)
touched client now (some s) m =
    let s' : Session = record s { last_active = now } in
    (some s', record m { sessions = insert client s' m.sessions })

unfoldable pub get : Bytes → ℕ → SessionManager → Option Session × SessionManager
unfolding touched
get client now m = touched client now (lookup client m.sessions) m

unfoldable pub delete_session : Bytes → SessionManager → SessionManager
delete_session client m = record m { sessions = delete client m.sessions }

-- the loop of CleanupExpired: how many are purged, and those that stay
purge : ℕ → ℕ → List (Bytes × Session) → ℕ × List (Bytes × Session)
purge ttl now [] = (0, [])
purge ttl now ((id, s) ∷ m) =
    let (n, rest) = purge ttl now m in
    if ltb ttl (now - s.last_active) then (suc n, rest) else (n, (id, s) ∷ rest)

unfoldable pub cleanup_expired : ℕ → SessionManager → ℕ × SessionManager
unfolding purge
cleanup_expired now m =
    let (n, rest) = purge m.ttl now m.sessions in (n, record m { sessions = rest })
