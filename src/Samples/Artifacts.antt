-- ===== src/Samples/Artifacts.antt =====
-- The cache of artifacts at a concrete input.
use torana_enterprise.Prelude.{true, List, [], ◌∷◌, Option, none, some}
use torana_enterprise.Prelude.Int.{pos}
use torana_enterprise.Prelude.Maps.{lookup}
use torana_enterprise.Prelude.Bytes.{Bytes, bytes, bytes_key}
use torana_enterprise.Plugins.Cache.{
  Artifact, Folder, blobs, manifests, meta, Answer, missing, contents, Disk, MetaJson, meta_of,
}

abbrev Files : Type 0
Files = List (Bytes × Bytes)

-- the files of the three folders
abbrev folder : Folder → Files × Files × Files → Files
folder blobs d = d.0
folder manifests d = d.1
folder meta d = d.2

abbrev add_file : Folder → Bytes → Bytes → Files × Files × Files → Files × Files × Files
add_file blobs name text (b, m, t) = ((name, text) ∷ b, m, t)
add_file manifests name text (b, m, t) = (b, (name, text) ∷ m, t)
add_file meta name text (b, m, t) = (b, m, (name, text) ∷ t)

abbrev answer : Option Bytes → Answer
answer none = missing
answer (some text) = contents text

abbrev disk : Disk (Files × Files × Files)
disk = record {
  write_file = λ f name text d. (true, add_file f name text d);
  read_file = λ f name d. answer (lookup name (folder f d));
  stat = λ f name d. none;
  remove = λ f name d. d;
  read_dir = λ d. none;
}

abbrev artifact : Artifact
artifact = record {
  reference = bytes "reg/p:1";
  digest = bytes "sha256:ab";
  manifest_bytes = [];
  payload_bytes = bytes "wasm";
  signature_bytes = [];
  media_type = bytes "application/wasm";
  size = pos 4;
  fetched_at = 5;
}

abbrev json : MetaJson
json = record { marshal = λ m. some (bytes "{}"); unmarshal = λ text. some (meta_of 9 artifact) }

-- a manifest of an earlier artifact under the digest
abbrev before : Files × Files × Files
before = ([], (bytes "sha256_ab", bytes "old") ∷ [], [])
