-- ===== src/Samples/Canary.antt =====
-- A canary filter and a session at concrete inputs.
use torana_enterprise.Prelude.{ℕ, ◌≡◌, ◌≢◌, [], ◌∷◌, none, some}
use torana_enterprise.Prelude.Int.{pos, pos_part}
use torana_enterprise.Prelude.Maps.{lookup}
use torana_enterprise.Prelude.Bytes.{Bytes, bytes, bytes_key}
use torana_enterprise.Prelude.Counting.{count}
use torana_enterprise.Plugins.Canary.{
  CanaryFilter, new_canary_filter, set_canary, should_route_canary,
}
use torana_enterprise.Plugins.Canary.Share.{
  sets, Reaches, fresh, onward, IsPercent, should_route_canary-share,
}
use torana_enterprise.Ingress.Sessions.{Session, register_cancel, cancel_request}
use torana_enterprise.Ingress.Sessions.Cancel.{cancel_request-register_cancel}
use torana_enterprise.Samples.Pipeline.{counting}

abbrev canary : CanaryFilter ℕ
canary = set_canary (some counting) (pos 30) (new_canary_filter (bytes "p") (some counting))

reached : Reaches canary
reached =
    onward _ _ (fresh (bytes "p") (some counting))
      (sets (new_canary_filter (bytes "p") (some counting)) (some counting) (pos 30))

should_route_canary-share_example :
    IsPercent canary.canary_percent
    × (count 100 (λ i. should_route_canary (some i) canary) ≡ pos_part canary.canary_percent)
should_route_canary-share_example = should_route_canary-share canary reached

abbrev session : Session
session = record {
  client_session_id = bytes "c";
  upstream_session_id = bytes "u";
  created_at = 1;
  last_active = 1;
  in_flight = (bytes "2", 5) ∷ [];
}

cancel_request-register_cancel_example :
    let (called, s') = cancel_request (bytes "1") (register_cancel (bytes "1") 7 session) in
    (called ≡ some 7)
    × ((cancel_request (bytes "1") s').0 ≡ none)
    × ((other : Bytes)
        → other ≢ bytes "1"
        → lookup other s'.in_flight ≡ lookup other session.in_flight)
cancel_request-register_cancel_example = cancel_request-register_cancel (bytes "1") 7 session
