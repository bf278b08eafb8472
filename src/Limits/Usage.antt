-- ===== src/Limits/Usage.antt =====
-- EstimateTokens and ParseUsageFromBody (internal/limits/usage.go). encoding/json is a parameter: what it
-- makes of a request (`read_request`), of a list of messages (`write_messages`) and of a response
-- (`read_response`). It gives numbers as float64, so the other cases of getInt64 do not arise.
use torana_enterprise.Prelude.{
  ℕ, Bool, List, [], ◌∷◌, Option, none, some, length, ◌||◌, ◌==◌, if◌then◌else◌,
}
use torana_enterprise.Prelude.Int.{ℤ, pos, negsuc, wrap64, ◌+ℤ◌, ltb_ℤ, leb_ℤ}
use torana_enterprise.Prelude.Maps.{◌≟◌, lookup}
use torana_enterprise.Prelude.Bytes.{
  Bytes, bytes, bytes_key, to_lower, split, trim_space, drop_prefix,
}
use torana_enterprise.Prelude.Json.{Json}
use torana_enterprise.Prelude.Float.{Float64}

pub record TokenUsage : Type 0 where
  pub prompt_tokens : ℤ
  pub completion_tokens : ℤ
  pub total_tokens : ℤ

-- what EstimateTokens reads of a request; the prompt only if it is a string
pub record Payload : Type 0 where
  pub prompt : Option Bytes
  pub messages : List Json
  pub max_tokens : ℤ
  pub max_completion_tokens : ℤ

-- what ParseUsageFromBody tells apart in a response
pub data Member (F : Type 0) : Type 0 where
  number : F → Member F
  no_number : Member F

pub data Entry (F : Type 0) : Type 0 where
  object : List (Bytes × Member F) → Entry F
  no_object : Entry F

-- x, or y where x is 0
or_if_zero : ℤ → ℤ → ℤ
or_if_zero (pos n) y = if n == 0 then y else pos n
or_if_zero (negsuc n) y = negsuc n

is_positive : ℤ → Bool
is_positive x = ltb_ℤ (pos 0) x

module _ (fl : Float64) (read_request : Bytes → Option Payload)
    (write_messages : List Json → Bytes) where
  max_of : Payload → ℤ → ℤ
  unfolding is_positive
  max_of p default =
      if is_positive p.max_tokens
      then p.max_tokens
      else if is_positive p.max_completion_tokens
      then p.max_completion_tokens
      else default

  chars_of : Option Bytes → List Json → ℕ
  chars_of (some s) ms = length s
  chars_of none [] = 0
  chars_of none (m ∷ ms) = length (write_messages (m ∷ ms))

  -- the tokens of a number of characters, at least one
  input_tokens : ℕ → ℤ
  input_tokens chars =
      let n = fl.to_int (fl.ceil (fl.div (fl.of_int (pos chars)) (fl.of_int (pos 4)))) in
      if ltb_ℤ n (pos 1) then pos 1 else n

  estimated : Bytes → ℤ → Option Payload → ℤ
  unfolding input_tokens chars_of max_of
  estimated body default (some p) =
      wrap64 (input_tokens (chars_of p.prompt p.messages) +ℤ max_of p default)
  estimated body default none = wrap64 (input_tokens (length body) +ℤ default)

  default_tokens : ℤ → ℤ
  default_tokens n = if leb_ℤ n (pos 0) then pos 1000 else n

  unfoldable pub estimate_tokens : Bytes → ℤ → ℤ
  unfolding estimated default_tokens
  estimate_tokens [] default = default_tokens default
  estimate_tokens (c ∷ body) default =
      estimated (c ∷ body) (default_tokens default) (read_request (c ∷ body))

module _ (fl : Float64) (read_response : Bytes → Option (List (Bytes × Entry fl.F))) where
  int_of : Option (Member fl.F) → ℤ
  int_of none = pos 0
  int_of (some (number x)) = fl.to_int x
  int_of (some no_number) = pos 0

  -- strings.EqualFold, of ASCII names, in the order of the map
  folded : Bytes → List (Bytes × Member fl.F) → Option (Member fl.F)
  folded key [] = none
  folded key ((k, v) ∷ m) = if to_lower k ≟ to_lower key then some v else folded key m

  or_folded : Bytes → List (Bytes × Member fl.F) → Option (Member fl.F) → Option (Member fl.F)
  unfolding folded
  or_folded key m (some v) = some v
  or_folded key m none = folded key m

  unfoldable pub get_int64 : List (Bytes × Member fl.F) → Bytes → ℤ
  unfolding int_of or_folded
  get_int64 m key = int_of (or_folded key m (lookup key m))

  unfoldable pub extract_from_map : List (Bytes × Member fl.F) → Option TokenUsage
  unfolding or_if_zero is_positive
  extract_from_map m =
      let prompt =
        or_if_zero (get_int64 m (bytes "prompt_tokens")) (get_int64 m (bytes "input_tokens")) in
      let completion =
        or_if_zero (get_int64 m (bytes "completion_tokens"))
          (get_int64 m (bytes "output_tokens")) in
      let total = or_if_zero (get_int64 m (bytes "total_tokens")) (wrap64 (prompt +ℤ completion)) in
      if is_positive total || is_positive prompt || is_positive completion
      then some
          (record { prompt_tokens = prompt; completion_tokens = completion; total_tokens = total })
      else none

  -- the format of Gemini
  from_metadata : Option (Entry fl.F) → Option TokenUsage
  unfolding or_if_zero is_positive
  from_metadata none = none
  from_metadata (some no_object) = none
  from_metadata (some (object m)) =
      let prompt = get_int64 m (bytes "promptTokenCount") in
      let completion = get_int64 m (bytes "candidatesTokenCount") in
      let total =
        or_if_zero (get_int64 m (bytes "totalTokenCount")) (wrap64 (prompt +ℤ completion)) in
      if is_positive total
      then some
          (record { prompt_tokens = prompt; completion_tokens = completion; total_tokens = total })
      else none

  from_usage : List (Bytes × Entry fl.F) → Option (Entry fl.F) → Option TokenUsage
  unfolding from_metadata
  from_usage root (some (object m)) = extract_from_map m
  from_usage root (some no_object) = from_metadata (lookup (bytes "usageMetadata") root)
  from_usage root none = from_metadata (lookup (bytes "usageMetadata") root)

  from_root : Option (List (Bytes × Entry fl.F)) → Option TokenUsage
  unfolding from_usage
  from_root none = none
  from_root (some root) = from_usage root (lookup (bytes "usage") root)

  unfoldable pub parse_usage_from_body : Bytes → Option TokenUsage
  unfolding from_root
  parse_usage_from_body [] = none
  parse_usage_from_body (c ∷ body) = from_root (read_response (c ∷ body))

  or_rest : Option TokenUsage → Option TokenUsage → Option TokenUsage
  or_rest (some u) rest = some u
  or_rest none rest = rest

  -- what one line of a chunk says
  usage_of_line : Option Bytes → Option TokenUsage
  usage_of_line none = none
  usage_of_line (some text) =
      let data_content = trim_space text in
      let usage = parse_usage_from_body data_content in
      if data_content ≟ bytes "[DONE]" then none else usage

  usage_of_lines : List Bytes → Option TokenUsage
  unfolding or_rest usage_of_line
  usage_of_lines [] = none
  usage_of_lines (line ∷ lines) =
      or_rest (usage_of_line (drop_prefix (bytes "data:") (trim_space line))) (usage_of_lines lines)

  unfoldable pub parse_usage_from_chunk : Bytes → Option TokenUsage
  unfolding usage_of_lines
  parse_usage_from_chunk chunk = usage_of_lines (split 10 chunk)
