-- ===== src/Config/Holder/Recovery.antt =====
-- A restart from the Last-Known-Good file (internal/config/config.go, Apply and LoadStartupLKG).
use torana_enterprise.Prelude.{◌≡◌, ◌≢◌, refl, Bool, true, false, [], ◌∷◌, Option, none, some}
use torana_enterprise.Prelude.Results.{Result, ok, err}
use torana_enterprise.Prelude.Bytes.{Bytes}
use torana_enterprise.Config.Types.{Regex, Snapshot, CompileError}
use torana_enterprise.Config.Compile.{CompiledConfig, compile_snapshot}
use torana_enterprise.Config.Holder.{
  FileSystem, SnapshotJson, LkgError, save_in, marshal_to, write_to, rename_to, save_lkg, parsed,
  read, load_lkg, SnapshotHolder, new_snapshot_holder, set_lkg_path, persist, swap, apply, applied,
  start, load_startup_lkg,
}

-- What a rename that succeeds does on one file system: the new name reads as what was written to the
-- old one, by a write that succeeded.
abbrev pub Renames : {D : Type 0} → FileSystem D → Type 0
Renames {D} fs =
    (old new text : Bytes) (d : D)
    → (fs.write_file old text d).0 ≡ true
    → (fs.rename old new (fs.write_file old text d).1).0 ≡ true
    → fs.read_file new (fs.rename old new (fs.write_file old text d).1).1 ≡ some text

-- Unmarshal reads back what Marshal wrote for a snapshot.
abbrev pub ReadsBack : SnapshotJson → Snapshot → Type 0
ReadsBack json s = (text : Bytes) → json.marshal s ≡ some text → json.unmarshal text ≡ some s

module _ {D : Type 0} (fs : FileSystem D) (json : SnapshotJson) (renames : Renames fs)
    (s : Snapshot) (reads : ReadsBack json s) where
  renamed :
      (temporary path text : Bytes) (r : Bool × D)
      → (r.0 ≡ true → fs.read_file path r.1 ≡ some text)
      → (rename_to fs json temporary path r).0 ≡ ok tt
      → fs.read_file path (rename_to fs json temporary path r).1 ≡ some text
  unfolding rename_to
  renamed temporary path text (true, d) law h = law refl
  renamed temporary path text (false, d) law h = cc

  written :
      (temporary path text : Bytes) (w : Bool × D)
      → (w.0 ≡ true
          → (fs.rename temporary path w.1).0 ≡ true
          → fs.read_file path (fs.rename temporary path w.1).1 ≡ some text)
      → (write_to fs json temporary path w).0 ≡ ok tt
      → fs.read_file path (write_to fs json temporary path w).1 ≡ some text
  unfolding write_to
  written temporary path text (true, d) law h =
      renamed temporary path text (fs.rename temporary path d) (law refl) h
  written temporary path text (false, d) law h = cc

  marshalled :
      (temporary path : Bytes) (o : Option Bytes) (d : D)
      → json.marshal s ≡ o
      → (marshal_to fs json temporary path o d).0 ≡ ok tt
      → read fs json (fs.read_file path (marshal_to fs json temporary path o d).1) ≡ ok s
  unfolding marshal_to read parsed
  marshalled temporary path none d m h = cc
  marshalled temporary path (some text) d m h =
      rw
        (
          written temporary path text (fs.write_file temporary text d)
              (renames temporary path text d) h,
          read,
        )
        (rw (reads text m, parsed) refl)

  saved :
      (temporary path : Bytes) (p : Bool × D)
      → (save_in fs json temporary path s p).0 ≡ ok tt
      → read fs json (fs.read_file path (save_in fs json temporary path s p).1) ≡ ok s
  unfolding save_in
  saved temporary path (true, d) h = marshalled temporary path (json.marshal s) d refl h
  saved temporary path (false, d) h = cc

  -- LoadLKG reads back a snapshot that SaveLKG saved without an error.
  pub load_lkg-save_lkg :
      (temporary path : Bytes) (d : D)
      → path ≢ []
      → (save_lkg fs json temporary path (some s) d).0 ≡ ok tt
      → load_lkg fs json path (save_lkg fs json temporary path (some s) d).1 ≡ ok s
  unfolding load_lkg save_lkg
  load_lkg-save_lkg temporary [] d n h = absurd (n refl)
  load_lkg-save_lkg temporary (c ∷ path) d n h =
      saved temporary (c ∷ path) (fs.make_parent (c ∷ path) d) h

  module _ (compile : Bytes → Result Bytes Regex) where
    abbrev pub SameForms :
        SnapshotHolder → Result LkgError Snapshot × SnapshotHolder × D → Snapshot → Type 0
    SameForms h y s = (y.0 ≡ ok s) × (y.1.current ≡ h.current) × (y.1.compiled ≡ h.compiled)

    -- If a holder with a file for the last good snapshot applies a snapshot and the save succeeds, then a
    -- new holder that starts from the file has the same snapshot and the same compiled form.
    pub restart :
        (t t' path : Bytes) (h : SnapshotHolder) (d : D)
        → path ≢ []
        → (apply compile fs json t (some s) (set_lkg_path path h) d).0 ≡ ok tt
        → (save_lkg fs json t path (some s) d).0 ≡ ok tt
        → let (r, h', d') = apply compile fs json t (some s) (set_lkg_path path h) d in
          SameForms h' (load_startup_lkg compile fs json t' path new_snapshot_holder d') s
    unfolding apply load_startup_lkg
    restart t t' [] h d n a b = absurd (n refl)
    restart t t' (c ∷ path) h d n a b = go (compile_snapshot compile (some s)) refl a
      where
        go :
            (x : Result CompileError CompiledConfig)
            → compile_snapshot compile (some s) ≡ x
            → (swap compile fs json t (some s) (set_lkg_path (c ∷ path) h) d x).0 ≡ ok tt
            → let (r, h', d') = swap compile fs json t (some s) (set_lkg_path (c ∷ path) h) d x in
              SameForms h' (load_startup_lkg compile fs json t' (c ∷ path) new_snapshot_holder d') s
        go (err e) q z = unfold swap in cc
        go (ok k) q z =
            unfold swap set_lkg_path persist in
            simp (load_lkg-save_lkg t (c ∷ path) d n b, start, q, swap, applied) (refl, refl, refl)
