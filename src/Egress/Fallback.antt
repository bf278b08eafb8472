-- ===== src/Egress/Fallback.antt =====
-- FallbackManager of internal/egress/llm/fallback.go. The world `W` stands for what the providers and
-- the caller's context are at each time; logging is left out. The chat and the stream variants run the
-- same loop over another method of the provider; the cancel function that the stream carries on is not
-- modelled.
pub mod Order
use torana_enterprise.Prelude.{
  ℕ, Bool, true, false, List, [], ◌∷◌, Option, none, some, ◌||◌, ◌&&◌, not, ◌⊎◌, inl, inr,
  if◌then◌else◌,
}
use torana_enterprise.Prelude.Int.{ℤ, pos, ltb_ℤ}
use torana_enterprise.Prelude.Maps.{lookup, insert}
use torana_enterprise.Prelude.Bytes.{Bytes, bytes, bytes_key, has_prefix}

-- An error of a provider: its text, and what errors.Is says of ErrRateLimit429 and of
-- context.DeadlineExceeded.
pub record ProviderError : Type 0 where
  pub text : Bytes
  pub is_rate_limit : Bool
  pub is_deadline : Bool

-- A method of a provider, under a timeout if there is one.
abbrev pub Method : Type 0 → Type 0 → Type 0 → Type 0
Method Req Resp W = Option ℤ → Bytes → Req → W → (Resp ⊎ ProviderError) × W

pub record Provider (Req Resp Stream W : Type 0) : Type 0 where
  pub chat_completion : Method Req Resp W
  pub stream_chat_completion : Method Req Stream W

pub record TargetEndpoint (Req Resp Stream W : Type 0) : Type 0 where
  pub provider : Provider Req Resp Stream W
  pub model : Bytes
  pub timeout : ℤ

-- strings.Contains
contains : Bytes → Bytes → Bool
contains [] part = has_prefix [] part
contains (c ∷ s) part = has_prefix (c ∷ s) part || contains s part

-- ShouldFallback, on an error that is not nil
unfoldable pub should_fallback : ProviderError → Bool
unfolding contains
should_fallback e =
    e.is_rate_limit
    || contains e.text (bytes "429")
    || e.is_deadline
    || contains e.text (bytes "context deadline exceeded")
    || contains e.text (bytes "status 500")
    || contains e.text (bytes "status 502")
    || contains e.text (bytes "status 503")
    || contains e.text (bytes "status 504")
    || contains e.text (bytes "connection refused")
    || contains e.text (bytes "EOF")

pub data FallbackError : Type 0 where
  not_configured : Bytes → FallbackError
  failed : ProviderError → FallbackError
  -- ErrFallbackExhausted with the last error
  exhausted : Option ProviderError → FallbackError

-- RegisterChain
unfoldable pub register_chain :
    {T : Type 0} → Bytes → List T → List (Bytes × List T) → List (Bytes × List T)
register_chain name targets chains = insert name targets chains

-- One turn of the loop over the targets, on what the call returned: return, or go on to the others.
after_call :
    {R W : Type 0}
    → (W → Bool)
    → (R ⊎ ProviderError) × W
    → (Option ProviderError → W → (R ⊎ FallbackError) × W)
    → (R ⊎ FallbackError) × W
after_call canceled (inl r, w) go_on = (inl r, w)
after_call canceled (inr e, w) go_on = elim (not (should_fallback e) && not (canceled w)) [
  | true ↦ (inr (failed e), w)
  | false ↦ go_on (some e) w
]

-- the loop; `canceled` says whether ctx.Err() of the caller is context.Canceled
unfoldable pub try_targets :
    {T R W : Type 0}
    → (T → W → (R ⊎ ProviderError) × W)
    → (W → Bool)
    → Option ProviderError
    → List T
    → W
    → (R ⊎ FallbackError) × W
unfolding after_call
try_targets call canceled last [] w = (inr (exhausted last), w)
try_targets call canceled last (t ∷ ts) w =
    after_call canceled (call t w) (λ e w'. try_targets call canceled e ts w')

time_limit : ℤ → Option ℤ
time_limit t = if ltb_ℤ (pos 0) t then some t else none

unfoldable pub run_chain :
    {T R W : Type 0}
    → Bytes
    → (T → W → (R ⊎ ProviderError) × W)
    → (W → Bool)
    → Option (List T)
    → W
    → (R ⊎ FallbackError) × W
unfolding try_targets
run_chain name call canceled none w = (inr (not_configured name), w)
run_chain name call canceled (some []) w = (inr (not_configured name), w)
run_chain name call canceled (some (t ∷ ts)) w = try_targets call canceled none (t ∷ ts) w

module _ {Req Resp Stream W : Type 0} where
  unfoldable pub chat : Req → TargetEndpoint Req Resp Stream W → W → (Resp ⊎ ProviderError) × W
  unfolding time_limit
  chat req t w = t.provider.chat_completion (time_limit t.timeout) t.model req w

  unfoldable pub stream : Req → TargetEndpoint Req Resp Stream W → W → (Stream ⊎ ProviderError) × W
  unfolding time_limit
  stream req t w = t.provider.stream_chat_completion (time_limit t.timeout) t.model req w

  unfoldable pub execute_with_fallback :
      List (Bytes × List (TargetEndpoint Req Resp Stream W))
      → (W → Bool)
      → Bytes
      → Req
      → W
      → (Resp ⊎ FallbackError) × W
  unfolding run_chain chat
  execute_with_fallback chains canceled name req w =
      run_chain name (chat req) canceled (lookup name chains) w

  unfoldable pub execute_stream_with_fallback :
      List (Bytes × List (TargetEndpoint Req Resp Stream W))
      → (W → Bool)
      → Bytes
      → Req
      → W
      → (Stream ⊎ FallbackError) × W
  unfolding run_chain stream
  execute_stream_with_fallback chains canceled name req w =
      run_chain name (stream req) canceled (lookup name chains) w
