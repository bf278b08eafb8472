-- ===== src/Samples/Config.antt =====
-- Configuration snapshots at concrete inputs.
use torana_enterprise.Prelude.{◌≡◌, refl, Bool, true, false, List, [], ◌∷◌, Option, none, some}
use torana_enterprise.Prelude.Int.{pos}
use torana_enterprise.Prelude.Results.{Result, ok, err}
use torana_enterprise.Prelude.Maps.{≟_refl, lookup}
use torana_enterprise.Prelude.Bytes.{
  Bytes, bytes, bytes_key, bytes_eq, trim, split, has_prefix, contains_byte,
}
use torana_enterprise.Config.Types.{Regex, RouteRule, Snapshot, CompileError, ConfigRoute}
use torana_enterprise.Config.Trie.{
  insert_route, new_route_trie, with_segments, path_segments_of, is_wildcard, match_path,
}
use torana_enterprise.Config.Trie.Overrun.{match_path-overrun}
use torana_enterprise.Config.Compile.{
  CompiledConfig, validate, compile_rules, compile_rule, compile_snapshot,
}
use torana_enterprise.Config.Compile.Faithful.{IsFaithful, compile_snapshot-IsFaithful}
use torana_enterprise.Config.Holder.{
  FileSystem, SnapshotJson, new_snapshot_holder, set_lkg_path, save_lkg, apply, load_startup_lkg,
}
use torana_enterprise.Config.Holder.Recovery.{Renames, SameForms, restart}
use torana_enterprise.Config.Holder.Coherent.{Applies, apply-Applies}

abbrev rule : Bytes → RouteRule
rule path = record {
  id = bytes "r1";
  host = [];
  path = path;
  path_prefix = false;
  method = [];
  headers = [];
  claims = [];
  upstream_id = bytes "u";
  weighted_upstreams = [];
  retry_policy = none;
  policies = [];
  timeout = pos 0;
}

abbrev snapshot : Bytes → Snapshot
snapshot path = record {
  version = 1;
  signature = [];
  timestamp = 0;
  routes = rule path ∷ [];
  upstreams = [];
}

abbrev good : Snapshot
good = snapshot (bytes "/v1/x")

abbrev bad : Snapshot
bad = snapshot (bytes "^(")

-- every expression is refused
abbrev refuse : Bytes → Result Bytes Regex
refuse s = err (bytes "error parsing regexp")

abbrev route : ConfigRoute
route = record {
  rule = rule (bytes "/v1/x");
  path_segments = [];
  path_regex = none;
  host_regex = none;
  header_regexes = [];
  claim_regexes = [];
  filter_chain = none;
}

abbrev moved : Bytes → Option Bytes → List (Bytes × Bytes) → Bool × List (Bytes × Bytes)
moved new none d = (false, d)
moved new (some t) d = (true, (new, t) ∷ d)

lookup_first : (p t : Bytes) (d : List (Bytes × Bytes)) → lookup p ((p, t) ∷ d) ≡ some t
unfolding lookup
lookup_first p t d = rw (≟_refl p) refl

abbrev files : FileSystem (List (Bytes × Bytes))
files = record {
  make_parent = λ p d. (true, d);
  write_file = λ p t d. (true, (p, t) ∷ d);
  rename = λ old new d. moved new (lookup old d) d;
  remove = λ p d. d;
  read_file = λ p d. lookup p d;
}

abbrev json : SnapshotJson
json = record { marshal = λ s. some (bytes "{}"); unmarshal = λ text. some good }

renames : Renames files
renames old new text d w r =
    simp (lookup_first old text d) (lookup_first new text ((old, text) ∷ d))

good_config : (c : CompiledConfig) × (compile_snapshot refuse (some good) ≡ ok c)
unfolding compile_snapshot validate compile_rules compile_rule bytes_eq has_prefix contains_byte
good_config = (_, refl)

bad_error : (e : CompileError) × (compile_snapshot refuse (some bad) ≡ err e)
unfolding compile_snapshot validate compile_rules compile_rule bytes_eq has_prefix
bad_error = (_, refl)

compile_snapshot-IsFaithful_example : IsFaithful good good_config.0
compile_snapshot-IsFaithful_example =
    compile_snapshot-IsFaithful refuse good good_config.0 good_config.1

match_path-overrun_example :
    match_path (bytes "/v1/x/y") (insert_route route new_route_trie) ≡ with_segments route ∷ []
unfolding path_segments_of is_wildcard trim split bytes_eq has_prefix
match_path-overrun_example =
    match_path-overrun route (bytes "/v1/x/y") (bytes "y" ∷ []) refl (refl, (refl, tt)) refl

apply-Applies_example :
    Applies refuse files json
      (some bad)
      new_snapshot_holder
      []
      (apply refuse files json (bytes "t") (some bad) new_snapshot_holder [])
apply-Applies_example =
    apply-Applies refuse files json (bytes "t") (some bad) new_snapshot_holder []

restart_example :
    let (r, h', d') =
      apply refuse files json
        (bytes "t")
        (some good)
        (set_lkg_path (bytes "p") new_snapshot_holder)
        [] in
    SameForms files json renames good
      (λ text e. refl)
      refuse
      h'
      (load_startup_lkg refuse files json (bytes "t2") (bytes "p") new_snapshot_holder d')
      good
unfolding apply save_lkg compile_snapshot validate compile_rules compile_rule bytes_eq has_prefix
    contains_byte lookup
restart_example =
    restart files json renames good (λ text e. refl) refuse (bytes "t") (bytes "t2") (bytes "p")
      new_snapshot_holder [] (λ e. cc) refl refl
