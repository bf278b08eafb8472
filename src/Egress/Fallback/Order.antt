-- ===== src/Egress/Fallback/Order.antt =====
-- Which targets of a chain are called (internal/egress/llm/fallback.go, ExecuteWithFallback).
use torana_enterprise.Prelude.{
  ◌≡◌, refl, sym, ◌∙◌, ap, Bool, true, false, List, [], ◌∷◌, ◌++◌, Option, none, some, ◌||◌, ◌&&◌,
  not, ◌⊎◌, inl, inr, arith, Bool-cases, All,
}
use torana_enterprise.Prelude.Maps.{lookup}
use torana_enterprise.Prelude.Bytes.{Bytes, bytes_key}
use torana_enterprise.Egress.Fallback.{
  ProviderError, TargetEndpoint, should_fallback, FallbackError, failed, after_call, try_targets,
  chat, run_chain, execute_with_fallback,
}

module _ {T R W : Type 0} (call : T → W → (R ⊎ ProviderError) × W) (canceled : W → Bool) where
  -- The targets fail one after another, each with an error that warrants a fallback, or with the
  -- caller's context canceled.
  pub data Skips : List T → W → W → Type 0 where
    nil : (w : W) → Skips [] w w
    cons :
        (t : T) (ts : List T) (e : ProviderError) (w w' w'' : W)
        → call t w ≡ (inr e, w')
        → (should_fallback e || canceled w') ≡ true
        → Skips ts w' w''
        → Skips (t ∷ ts) w w''

  -- a target answers, those before it being skipped
  pub Answers : List T → W → R → W → Type 0
  Answers ts w r w' =
      (pre : List T) × (t : T) × (post : List T) × (v : W) × (ts ≡ pre ++ t ∷ post)
      × Skips pre w v
      × (call t v ≡ (inl r, w'))

  later :
      (t : T) (ts : List T) (e : ProviderError) (w w' : W) (r : R) (w'' : W)
      → call t w ≡ (inr e, w')
      → (should_fallback e || canceled w') ≡ true
      → Answers ts w' r w''
      → Answers (t ∷ ts) w r w''
  unfolding Answers
  later t ts e w w' r w'' c g (pre, u, post, v, same, skips, answer) =
      (t ∷ pre, u, post, v, ap (λ l. t ∷ l) same, cons t pre e w w' v c g skips, answer)

  -- one call, the loop over the targets that are left being `rest`
  first_call :
      (t : T) (ts : List T) (w : W) (a : (R ⊎ ProviderError) × W)
      (rest : Option ProviderError → W → (R ⊎ FallbackError) × W) (r : R) (w' : W)
      → call t w ≡ a
      → ((o : Option ProviderError) (v : W) → rest o v ≡ (inl r, w') → Answers ts v r w')
      → after_call canceled a rest ≡ (inl r, w')
      → Answers (t ∷ ts) w r w'
  unfolding Answers after_call
  first_call t ts w (inl s, v) rest r w' c ih h = ([], t, ts, w, refl, nil w, cc (c, h))
  first_call t ts w (inr e, v) rest r w' c ih h =
      elim (Bool-cases (not (should_fallback e) && not (canceled v))) [
        | inl s ↦
            let gone : after_call {R = R} canceled (inr e, v) rest ≡ (inr (failed e), v) =
              rw (s, after_call) refl in
            cc (gone, h)
        | inr s ↦ later t ts e w v r w' c (ground (arith, s)) (ih (some e) v (sym (next s) ∙ h))
      ]
    where
      next :
          (not (should_fallback e) && not (canceled v)) ≡ false
          → after_call {R = R} canceled (inr e, v) rest ≡ rest (some e) v
      next s = rw (s, after_call) refl

  try_targets-Answers :
      (last : Option ProviderError) (ts : List T) (w : W) (r : R) (w' : W)
      → try_targets call canceled last ts w ≡ (inl r, w')
      → Answers ts w r w'
  unfolding try_targets
  try_targets-Answers last [] w r w' h = cc
  try_targets-Answers last (t ∷ ts) w r w' h =
      first_call t ts w (call t w) (λ o v. try_targets call canceled o ts v) r w' refl
        (λ o v. try_targets-Answers o ts v r w') h

  -- what is left of the world when every target has been called
  pub after_all : List T → W → W
  after_all [] w = w
  after_all (t ∷ ts) w = after_all ts (call t w).1

  -- every call of the target fails
  abbrev pub Fails : T → Type 0
  Fails t = (w : W) → (e : ProviderError) × (w' : W) × (call t w ≡ (inr e, w'))

  skipped :
      (e : ProviderError) (v : W) (rest : Option ProviderError → W → (R ⊎ FallbackError) × W)
      → canceled v ≡ true
      → after_call canceled (inr e, v) rest ≡ rest (some e) v
  unfolding after_call
  skipped e v rest c =
      let no : (not (should_fallback e) && not (canceled v)) ≡ false = ground (arith, c) in
      rw (no, after_call) refl

  called_all :
      (last : Option ProviderError) (ts : List T) (w : W)
      → All Fails ts
      → ((w : W) → canceled w ≡ true)
      → (try_targets call canceled last ts w).1 ≡ after_all ts w
  unfolding try_targets after_all after_call
  called_all last [] w f c = refl
  called_all last (t ∷ ts) w (f, fs) c = go (λ o v. called_all o ts v fs c) (f w)
    where
      go :
          ((o : Option ProviderError) (v : W)
            → (try_targets call canceled o ts v).1 ≡ after_all ts v)
          → (e : ProviderError) × (w' : W) × (call t w ≡ (inr e, w'))
          → (try_targets call canceled last (t ∷ ts) w).1 ≡ after_all ts (call t w).1
      go ih (e, v, same) = rw same (
          ap (λ x. x.1) (skipped e v (λ o x. try_targets call canceled o ts x) (c v))
          ∙ ih (some e) v)

module _ {Req Resp Stream W : Type 0} where
  -- A response of ExecuteWithFallback is that of a target of the chain of this name; the targets before
  -- it failed one after another, each with an error that warrants a fallback, or with the caller's
  -- context canceled.
  pub execute_with_fallback-Answers :
      (chains : List (Bytes × List (TargetEndpoint Req Resp Stream W))) (canceled : W → Bool)
      (name : Bytes) (req : Req) (w : W) (r : Resp) (w' : W)
      → execute_with_fallback chains canceled name req w ≡ (inl r, w')
      → (ts : List (TargetEndpoint Req Resp Stream W)) × (lookup name chains ≡ some ts)
        × Answers (chat req) canceled ts w r w'
  unfolding execute_with_fallback
  execute_with_fallback-Answers chains canceled name req w r w' h = go (lookup name chains) refl h
    where
      go :
          (o : Option (List (TargetEndpoint Req Resp Stream W)))
          → lookup name chains ≡ o
          → run_chain name (chat req) canceled o w ≡ (inl r, w')
          → (ts : List (TargetEndpoint Req Resp Stream W)) × (lookup name chains ≡ some ts)
            × Answers (chat req) canceled ts w r w'
      go none e g = unfold run_chain in cc
      go (some []) e g = unfold run_chain in cc
      go (some (t ∷ ts)) e g = (
        t ∷ ts,
        e,
        try_targets-Answers (chat req) canceled none (t ∷ ts) w r w' (unfold run_chain in g),
      )

  -- If the caller's context is canceled and every call fails, then ExecuteWithFallback calls every
  -- target of the chain all the same, whatever the errors are.
  pub execute_with_fallback-canceled :
      (chains : List (Bytes × List (TargetEndpoint Req Resp Stream W))) (canceled : W → Bool)
      (name : Bytes) (req : Req) (w : W) (ts : List (TargetEndpoint Req Resp Stream W))
      → lookup name chains ≡ some ts
      → All (Fails {R = Resp} (chat {Stream = Stream} req) canceled) ts
      → ((v : W) → canceled v ≡ true)
      → (execute_with_fallback chains canceled name req w).1 ≡ after_all (chat req) canceled ts w
  unfolding execute_with_fallback run_chain after_all
  execute_with_fallback-canceled chains canceled name req w [] e f c = rw (e, run_chain) refl
  execute_with_fallback-canceled chains canceled name req w (t ∷ ts) e f c =
      rw (e, run_chain) (called_all (chat req) canceled none (t ∷ ts) w f c)
