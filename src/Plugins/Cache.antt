-- ===== src/Plugins/Cache.antt =====
-- Cache of internal/plugins/oci/cache.go, over a disk whose files stand in the three folders of the cache
-- under the name of a digest, which has no slash. Package os and encoding/json are parameters; 0 is the
-- zero time.
pub mod Stored
use torana_enterprise.Prelude.{
  ℕ, suc, ◌+◌, ◌-◌, Bool, true, false, List, [], ◌∷◌, ◌++◌, Option, none, some, length, take, map,
  ◌==◌, ◌||◌, not, if◌then◌else◌,
}
use torana_enterprise.Prelude.Int.{ℤ, pos, wrap64, ◌+ℤ◌}
use torana_enterprise.Prelude.Maps.{◌≟◌}
use torana_enterprise.Prelude.Bytes.{Bytes, bytes, bytes_key, has_suffix}
use torana_enterprise.Prelude.Results.{Result, ok, err}

pub record Artifact : Type 0 where
  pub reference : Bytes
  pub digest : Bytes
  pub manifest_bytes : Bytes
  pub payload_bytes : Bytes
  pub signature_bytes : Bytes
  pub media_type : Bytes
  pub size : ℤ
  pub fetched_at : ℕ

pub record ArtifactMeta : Type 0 where
  pub reference : Bytes
  pub digest : Bytes
  pub signature_bytes : Bytes
  pub media_type : Bytes
  pub size : ℤ
  pub fetched_at : ℕ

pub data Folder : Type 0 where
  blobs manifests meta : Folder

-- os.ReadFile
pub data Answer : Type 0 where
  missing unreadable : Answer
  contents : Bytes → Answer

-- os.WriteFile (whether it succeeds), os.Stat with the size, os.Remove, and os.ReadDir of the folder meta
-- with whether an entry is a directory
pub record Disk (D : Type 0) : Type 0 where
  pub write_file : Folder → Bytes → Bytes → D → Bool × D
  pub read_file : Folder → Bytes → D → Answer
  pub stat : Folder → Bytes → D → Option ℤ
  pub remove : Folder → Bytes → D → D
  pub read_dir : D → Option (List (Bytes × Bool))

pub record MetaJson : Type 0 where
  pub marshal : ArtifactMeta → Option Bytes
  pub unmarshal : Bytes → Option ArtifactMeta

pub data CacheError : Type 0 where
  artifact_not_found nil_artifact without_digest : CacheError
  no_metadata corrupt_metadata no_payload no_manifest : CacheError
  not_marshalled payload_not_written manifest_not_written metadata_not_written : CacheError
  no_meta_folder context_done : CacheError

safe_byte : ℕ → ℕ
safe_byte c = if c == b':' then b'_' else c

unfoldable pub sanitize_digest : Bytes → Bytes
unfolding safe_byte
sanitize_digest = map safe_byte

unfoldable pub meta_of : ℕ → Artifact → ArtifactMeta
meta_of now a = record {
  reference = a.reference;
  digest = a.digest;
  signature_bytes = a.signature_bytes;
  media_type = a.media_type;
  size = a.size;
  fetched_at = if a.fetched_at == 0 then now else a.fetched_at;
}

unfoldable pub artifact_of : ArtifactMeta → Bytes → Bytes → Artifact
artifact_of m manifest payload = record {
  reference = m.reference;
  digest = m.digest;
  manifest_bytes = manifest;
  payload_bytes = payload;
  signature_bytes = m.signature_bytes;
  media_type = m.media_type;
  size = m.size;
  fetched_at = m.fetched_at;
}

module _ {D : Type 0} (disk : Disk D) where
  is_there : Folder → Bytes → D → Bool
  is_there f name d = elim (disk.stat f name d) [ none ↦ false | some n ↦ true ]

  unfoldable pub has : Bytes → D → Bool
  unfolding is_there
  has [] d = false
  has (c ∷ s) d =
      let safe = sanitize_digest (c ∷ s) in
      if is_there meta safe d then is_there blobs safe d else false

  -- what is read, up to the manifest: one that is missing is empty
  unfoldable pub with_manifest : ArtifactMeta → Bytes → Answer → Result CacheError Artifact
  with_manifest m payload missing = ok (artifact_of m [] payload)
  with_manifest m payload unreadable = err no_manifest
  with_manifest m payload (contents manifest) = ok (artifact_of m manifest payload)

  with_payload : ArtifactMeta → Bytes → D → Answer → Result CacheError Artifact
  unfolding with_manifest
  with_payload m safe d missing = err no_payload
  with_payload m safe d unreadable = err no_payload
  with_payload m safe d (contents payload) =
      with_manifest m payload (disk.read_file manifests safe d)

  parsed : Bytes → D → Option ArtifactMeta → Result CacheError Artifact
  unfolding with_payload
  parsed safe d none = err corrupt_metadata
  parsed safe d (some m) = with_payload m safe d (disk.read_file blobs safe d)

  module _ (json : MetaJson) where
    with_meta : Bytes → D → Answer → Result CacheError Artifact
    unfolding parsed
    with_meta safe d missing = err artifact_not_found
    with_meta safe d unreadable = err no_metadata
    with_meta safe d (contents text) = parsed safe d (json.unmarshal text)

    unfoldable pub get : Bytes → D → Result CacheError Artifact
    unfolding with_meta
    get [] d = err artifact_not_found
    get (c ∷ s) d =
        let safe = sanitize_digest (c ∷ s) in with_meta safe d (disk.read_file meta safe d)

    meta_written : Bool × D → Result CacheError (Unit {0}) × D
    meta_written (true, d) = (ok tt, d)
    meta_written (false, d) = (err metadata_not_written, d)

    manifest_written : Bytes → Bytes → Bool × D → Result CacheError (Unit {0}) × D
    unfolding meta_written
    manifest_written safe text (false, d) = (err manifest_not_written, d)
    manifest_written safe text (true, d) = meta_written (disk.write_file meta safe text d)

    -- no manifest is written where there is none
    write_manifest : Bytes → Bytes → D → Bool × D
    write_manifest safe [] d = (true, d)
    write_manifest safe (c ∷ s) d = disk.write_file manifests safe (c ∷ s) d

    payload_written : Bytes → Bytes → Bytes → Bool × D → Result CacheError (Unit {0}) × D
    unfolding manifest_written write_manifest
    payload_written safe manifest text (false, d) = (err payload_not_written, d)
    payload_written safe manifest text (true, d) =
        manifest_written safe text (write_manifest safe manifest d)

    put_text : Artifact → Option Bytes → D → Result CacheError (Unit {0}) × D
    unfolding payload_written
    put_text a none d = (err not_marshalled, d)
    put_text a (some text) d =
        let safe = sanitize_digest a.digest in
        payload_written safe a.manifest_bytes text (disk.write_file blobs safe a.payload_bytes d)

    put_digest : ℕ → Artifact → Bytes → D → Result CacheError (Unit {0}) × D
    unfolding put_text
    put_digest now a [] d = (err without_digest, d)
    put_digest now a (c ∷ s) d = put_text a (json.marshal (meta_of now a)) d

    unfoldable pub put : ℕ → Option Artifact → D → Result CacheError (Unit {0}) × D
    unfolding put_digest
    put now none d = (err nil_artifact, d)
    put now (some a) d = put_digest now a a.digest d

  -- the bytes freed, and the disk afterwards
  remove_at : Option ℤ → Folder → Bytes → ℤ × D → ℤ × D
  remove_at none f name (freed, d) = (freed, d)
  remove_at (some n) f name (freed, d) = (wrap64 (freed +ℤ n), disk.remove f name d)

  remove_in : Folder → Bytes → ℤ × D → ℤ × D
  unfolding remove_at
  remove_in f name (freed, d) = remove_at (disk.stat f name d) f name (freed, d)

  is_active : Bytes → List Bytes → Bool
  is_active name [] = false
  is_active name (a ∷ as') = sanitize_digest a ≟ name || is_active name as'

  is_skipped : List Bytes → Bytes × Bool → Bool
  unfolding is_active
  is_skipped active (name, is_dir) =
      if is_dir || not (has_suffix name (bytes ".json"))
      then true
      else is_active (take (length name - 5) name) active

  collect_one : Bytes → ℤ × D → ℤ × D
  unfolding remove_in
  collect_one name s = remove_in meta name (remove_in manifests name (remove_in blobs name s))

  -- the loop over the entries; `done` is whether the context is done at each turn
  collect :
      (ℕ → Bool) → List Bytes → List (Bytes × Bool) → ℕ → ℤ × D → ℕ × ℤ × Option CacheError × D
  unfolding is_skipped collect_one
  collect done active [] purged (freed, d) = (purged, freed, none, d)
  collect done active (e ∷ es) purged (freed, d) = elim (done 0) [
    | true ↦ (purged, freed, some context_done, d)
    | false ↦ elim (is_skipped active e) [
      | true ↦ collect (λ i. done (suc i)) active es purged (freed, d)
      | false ↦
          collect (λ i. done (suc i)) active es (suc purged)
            (collect_one (take (length e.0 - 5) e.0) (freed, d))
    ]
  ]

  collect_in :
      (ℕ → Bool) → List Bytes → D → Option (List (Bytes × Bool)) → ℕ × ℤ × Option CacheError × D
  unfolding collect
  collect_in done active d none = (0, pos 0, some no_meta_folder, d)
  collect_in done active d (some es) = collect done active es 0 (pos 0, d)

  unfoldable pub garbage_collect : (ℕ → Bool) → List Bytes → D → ℕ × ℤ × Option CacheError × D
  unfolding collect_in
  garbage_collect done active d = collect_in done active d (disk.read_dir d)
