-- ===== src/Pipeline/Types.antt =====
-- The data of the filter pipeline (internal/pipeline/types.go). A reader is what is left to read and
-- the error that follows it, if any. The TLS state of a peer is not modelled.
use torana_enterprise.Prelude.{
  ℕ, Bool, true, false, List, [], ◌∷◌, ◌++◌, Option, none, some, length, take, drop as drop_list,
  ltb, ◌==◌, if◌then◌else◌, ◌&&◌,
}
use torana_enterprise.Prelude.Int.{ℤ, pos, wrap64, ◌+ℤ◌, ltb_ℤ, pos_part}
use torana_enterprise.Prelude.Maps.{lookup, insert}
use torana_enterprise.Prelude.Bytes.{Bytes, bytes, bytes_key, lower_byte, upper_byte, is_token}
use torana_enterprise.Authn.Identity.{Identity}
use torana_enterprise.Config.Types.{RouteRule, UpstreamCluster}

pub data Phase : Type 0 where
  unspecified request_headers request_body response_headers response_body authn : Phase

pub data BodyMode : Type 0 where
  none_mode streaming buffered : BodyMode

pub data FailurePolicy : Type 0 where
  fail_closed fail_open : FailurePolicy

pub data Action : Type 0 where
  continue halt mutate drop : Action

-- Errors by the text and the identity that `errors.Is` sees; `wrapped` is fmt.Errorf with %w.
pub data Err : Type 0 where
  deadline_exceeded canceled phase_timeout circuit_open body_too_large : Err
  message : Bytes → Err
  wrapped : Bytes → Err → Err

pub record PeerInfo : Type 0 where
  pub remote_ip : Bytes
  pub protocol : Bytes
  pub client_identity : Bytes

pub record Decision : Type 0 where
  pub action : Action
  pub status_code : ℕ
  pub reason : Bytes
  pub mutate_headers : List (Bytes × Bytes)
  pub mutate_body : Bytes
  pub mutate_metadata : List (Bytes × Bytes)

pub data Reader : Type 0 where
  reader : Bytes → Option Err → Reader

pub record Envelope : Type 0 where
  pub request_id : Bytes
  pub route : Option RouteRule
  pub upstream : Option UpstreamCluster
  pub phase : Phase
  pub method : Bytes
  pub path : Bytes
  pub headers : List (Bytes × List Bytes)
  pub metadata : List (Bytes × Bytes)
  pub claims : List (Bytes × Bytes)
  pub identity : Option Identity
  pub body : Option Reader
  pub buffered_body : Option Bytes
  pub peer_info : PeerInfo
  pub start_time : ℕ

unfoldable pub continue_decision : Decision
continue_decision = record {
  action = continue;
  status_code = 200;
  reason = [];
  mutate_headers = [];
  mutate_body = [];
  mutate_metadata = [];
}

unfoldable pub halt_decision : ℕ → Bytes → Decision
halt_decision status_code reason = record {
  action = halt;
  status_code = status_code;
  reason = reason;
  mutate_headers = [];
  mutate_body = [];
  mutate_metadata = [];
}

unfoldable pub same_phase : Phase → Phase → Bool
same_phase unspecified unspecified = true
same_phase request_headers request_headers = true
same_phase request_body request_body = true
same_phase response_headers response_headers = true
same_phase response_body response_body = true
same_phase authn authn = true
same_phase _ _ = false

-- err.Error()
unfoldable pub error_text : Err → Bytes
error_text deadline_exceeded = bytes "context deadline exceeded"
error_text canceled = bytes "context canceled"
error_text phase_timeout = bytes "phase latency budget exceeded"
error_text circuit_open = bytes "filter circuit breaker open"
error_text body_too_large = bytes "request body exceeds max allowed buffer size"
error_text (message s) = s
error_text (wrapped s e) = s ++ bytes ": " ++ error_text e

-- errors.Is(err, context.DeadlineExceeded)
unfoldable pub is_deadline : Err → Bool
is_deadline deadline_exceeded = true
is_deadline (wrapped s e) = is_deadline e
is_deadline _ = false

-- http.CanonicalHeaderKey: a name with a byte that is no token byte stays as it is
canonical_from : Bool → Bytes → Bytes
canonical_from up [] = []
canonical_from up (c ∷ s) =
    (if up then upper_byte c else lower_byte c) ∷ canonical_from (c == b'-') s

all_token : Bytes → Bool
all_token [] = true
all_token (c ∷ s) = is_token c && all_token s

unfoldable pub canonical : Bytes → Bytes
unfolding canonical_from all_token upper_byte lower_byte is_token
canonical s = if all_token s then canonical_from true s else s

-- http.Header.Set and Get
unfoldable pub header_set : Bytes → Bytes → List (Bytes × List Bytes) → List (Bytes × List Bytes)
header_set k v h = insert (canonical k) (v ∷ []) h

first_value : Option (List Bytes) → Bytes
first_value none = []
first_value (some []) = []
first_value (some (v ∷ vs)) = v

unfoldable pub header_get : Bytes → List (Bytes × List Bytes) → Bytes
unfolding first_value
header_get k h = first_value (lookup (canonical k) h)

-- GetBufferedBody: the bytes or the error, and the envelope afterwards
read_all : ℕ → Reader → Bytes × Option Err × Reader
read_all n (reader s e) =
    if ltb (length s) n then (s, e, reader [] e) else (take n s, none, reader (drop_list n s) e)

cache_body : ℤ → Envelope → Bytes × Option Err × Reader → Option Bytes × Option Err × Envelope
cache_body max env (buf, some e, rest) =
    (none, some (wrapped (bytes "failed to read body") e), record env { body = some rest })
cache_body max env (buf, none, rest) =
    if ltb_ℤ max (pos (length buf))
    then (none, some body_too_large, record env { body = some rest })
    else (some buf, none, record env { buffered_body = some buf; body = some (reader buf none) })

read_body : ℤ → Envelope → Option Reader → Option Bytes × Option Err × Envelope
unfolding read_all cache_body
read_body max env none = (none, none, env)
read_body max env (some r) = cache_body max env (read_all (pos_part (wrap64 (max +ℤ pos 1))) r)

unfoldable pub get_buffered_body : ℤ → Envelope → Option Bytes × Option Err × Envelope
unfolding read_body
get_buffered_body max env = elim env.buffered_body [
  | some b ↦ (some b, none, env)
  | none ↦ read_body max env env.body
]

-- Reset, and GetEnvelope on a recycled envelope
unfoldable pub reset : Envelope → Envelope
reset env = record {
  request_id = [];
  route = none;
  upstream = none;
  phase = unspecified;
  method = [];
  path = [];
  headers = [];
  metadata = [];
  claims = [];
  identity = none;
  body = none;
  buffered_body = none;
  peer_info = record { remote_ip = []; protocol = []; client_identity = [] };
  start_time = 0;
}

unfoldable pub get_envelope :
    Envelope
    → Bytes
    → Phase
    → Bytes
    → Bytes
    → List (Bytes × List Bytes)
    → Option Reader
    → ℕ
    → Envelope
unfolding reset
get_envelope old request_id phase method path headers body now = record (reset old) {
  request_id = request_id;
  phase = phase;
  method = method;
  path = path;
  body = body;
  start_time = now;
  headers = headers;
}
