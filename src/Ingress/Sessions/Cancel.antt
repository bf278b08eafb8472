-- ===== src/Ingress/Sessions/Cancel.antt =====
-- The cancellation of requests in flight (internal/ingress/mcp/session.go).
use torana_enterprise.Prelude.{◌≡◌, ◌≢◌, refl, ◌∙◌, ℕ, none, some, arith}
use torana_enterprise.Prelude.Maps.{
  ≟_refl, ≟_iff, lookup, insert, delete, lookup-insert, lookup-insert_self, lookup-delete,
}
use torana_enterprise.Prelude.Bytes.{Bytes, bytes_key}
use torana_enterprise.Ingress.Sessions.{Session, register_cancel, cancelled, cancel_request}

-- A request that is registered is cancelled by its own function, once: a second CancelRequest finds
-- none, and the other requests in flight stay as they were.
pub cancel_request-register_cancel :
    (req : Bytes) (cancel : ℕ) (s : Session)
    → let (called, s') = cancel_request req (register_cancel req cancel s) in
      (called ≡ some cancel)
      × ((cancel_request req s').0 ≡ none)
      × ((other : Bytes) → other ≢ req → lookup other s'.in_flight ≡ lookup other s.in_flight)
unfolding cancel_request register_cancel
cancel_request-register_cancel req cancel s =
    let gone : lookup req (delete req (insert req cancel s.in_flight)) ≡ none =
      lookup-delete req req (insert req cancel s.in_flight) ∙ rw (≟_refl req) refl in
    rw (lookup-insert_self req cancel s.in_flight, cancelled)
      (
        refl,
        rw (gone, cancelled) refl,
        λ other n. ground (
          arith,
          ≟_iff req other,
          lookup-delete req other (insert req cancel s.in_flight),
          lookup-insert req other cancel s.in_flight,
          n,
        ),
      )
