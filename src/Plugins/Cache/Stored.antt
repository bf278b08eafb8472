-- ===== src/Plugins/Cache/Stored.antt =====
-- That a stored artifact is read back (internal/plugins/oci/cache.go, Put and Get).
use torana_enterprise.Prelude.{◌≡◌, ◌≢◌, true, [], ◌∷◌}
use torana_enterprise.Prelude.Bytes.{Bytes}
use torana_enterprise.Plugins.Cache.{
  Folder, blobs, manifests, meta, Answer, contents, Disk, MetaJson,
}

-- A write that succeeds is read back, and the other folders are as they were.
pub record IsDisk {D : Type 0} (disk : Disk D) : Type 0 where
  pub wrote :
      (f : Folder) (name text : Bytes) (d : D)
      → (disk.write_file f name text d).0 ≡ true
      → disk.read_file f name (disk.write_file f name text d).1 ≡ contents text
  pub elsewhere :
      (f g : Folder) (name other text : Bytes) (d : D)
      → f ≢ g
      → disk.read_file g other (disk.write_file f name text d).1 ≡ disk.read_file g other d

-- the manifest that a Put leaves, where another may have been
pub manifest_left : Bytes → Answer → Answer
manifest_left [] old = old
manifest_left (c ∷ s) old = contents (c ∷ s)

blobs_meta : blobs ≢ meta
blobs_meta e = cc e

module _ {D : Type 0} (disk : Disk D) (json : MetaJson) (laws : IsDisk disk) where
  -- What stands in the three folders.
  abbrev Holds : Bytes → Answer → Answer → Answer → D → Type 0
  Holds safe b m t d =
      (disk.read_file blobs safe d ≡ b)
      × (disk.read_file manifests safe d ≡ m)
      × (disk.read_file meta safe d ≡ t)
