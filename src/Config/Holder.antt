-- ===== src/Config/Holder.antt =====
-- SnapshotHolder and the Last-Known-Good file (internal/config/config.go). The file system is a state
-- `D` with the operations of package os that the code calls, and encoding/json a pair of functions on
-- snapshots; `temporary` is the name that SaveLKG draws from the clock. A holder's three atomic pointers
-- are its fields, and each call is one step.
pub mod Recovery
pub mod Coherent
use torana_enterprise.Prelude.{
  ℕ, Bool, true, false, List, [], ◌∷◌, Option, none, some, if◌then◌else◌,
}
use torana_enterprise.Prelude.Results.{Result, ok, err, ◌>>=◌}
use torana_enterprise.Prelude.Maps.{◌≟◌}
use torana_enterprise.Prelude.Bytes.{Bytes, bytes, bytes_key}
use torana_enterprise.Config.Types.{Regex, Snapshot, CompileError}
use torana_enterprise.Config.Compile.{CompiledConfig, nil_snapshot, compile_snapshot}

-- os.MkdirAll of the directory of a path, os.WriteFile, os.Rename, os.Remove and os.ReadFile
pub record FileSystem (D : Type 0) : Type 0 where
  pub make_parent : Bytes → D → Bool × D
  pub write_file : Bytes → Bytes → D → Bool × D
  pub rename : Bytes → Bytes → D → Bool × D
  pub remove : Bytes → D → D
  pub read_file : Bytes → D → Option Bytes

pub record SnapshotJson : Type 0 where
  pub marshal : Snapshot → Option Bytes
  pub unmarshal : Bytes → Option Snapshot

pub data LkgError : Type 0 where
  no_directory not_marshalled not_written not_renamed : LkgError
  no_path unreadable unparsed : LkgError
  not_applied : CompileError → LkgError

pub data HolderError : Type 0 where
  no_snapshot_available nil_stored : HolderError

module _ {D : Type 0} (fs : FileSystem D) (json : SnapshotJson) where
  open fs use {make_parent, write_file, rename, remove, read_file}

  rename_to : Bytes → Bytes → Bool × D → Result LkgError (Unit {0}) × D
  rename_to temporary path (true, d) = (ok tt, d)
  rename_to temporary path (false, d) = (err not_renamed, remove temporary d)

  write_to : Bytes → Bytes → Bool × D → Result LkgError (Unit {0}) × D
  unfolding rename_to
  write_to temporary path (true, d) = rename_to temporary path (rename temporary path d)
  write_to temporary path (false, d) = (err not_written, d)

  marshal_to : Bytes → Bytes → Option Bytes → D → Result LkgError (Unit {0}) × D
  unfolding write_to
  marshal_to temporary path none d = (err not_marshalled, d)
  marshal_to temporary path (some text) d = write_to temporary path (write_file temporary text d)

  save_in : Bytes → Bytes → Snapshot → Bool × D → Result LkgError (Unit {0}) × D
  unfolding marshal_to
  save_in temporary path s (true, d) = marshal_to temporary path (json.marshal s) d
  save_in temporary path s (false, d) = (err no_directory, d)

  unfoldable pub save_lkg : Bytes → Bytes → Option Snapshot → D → Result LkgError (Unit {0}) × D
  unfolding save_in
  save_lkg temporary path none d = (ok tt, d)
  save_lkg temporary [] (some s) d = (ok tt, d)
  save_lkg temporary (c ∷ path) (some s) d =
      save_in temporary (c ∷ path) s (make_parent (c ∷ path) d)

  parsed : Option Snapshot → Result LkgError Snapshot
  parsed none = err unparsed
  parsed (some s) = ok s

  read : Option Bytes → Result LkgError Snapshot
  unfolding parsed
  read none = err unreadable
  read (some text) = parsed (json.unmarshal text)

  unfoldable pub load_lkg : Bytes → D → Result LkgError Snapshot
  unfolding read
  load_lkg [] d = err no_path
  load_lkg (c ∷ path) d = read (read_file (c ∷ path) d)

pub record SnapshotHolder : Type 0 where
  pub current : Option Snapshot
  pub compiled : Option CompiledConfig
  pub lkg_path : Option Bytes

unfoldable pub new_snapshot_holder : SnapshotHolder
new_snapshot_holder = record { current = none; compiled = none; lkg_path = none }

unfoldable pub set_lkg_path : Bytes → SnapshotHolder → SnapshotHolder
set_lkg_path [] h = h
set_lkg_path (c ∷ path) h = record h { lkg_path = some (c ∷ path) }

unfoldable pub load : SnapshotHolder → Result HolderError Snapshot
load h = elim h.current [ none ↦ err no_snapshot_available | some s ↦ ok s ]

unfoldable pub load_compiled : SnapshotHolder → Result HolderError CompiledConfig
load_compiled h = elim h.compiled [ none ↦ err no_snapshot_available | some c ↦ ok c ]

unfoldable pub has_snapshot : SnapshotHolder → Bool
has_snapshot h = elim h.current [ none ↦ false | some s ↦ true ]

module _ (compile : Bytes → Result Bytes Regex) where
  stored : Result CompileError CompiledConfig → Option CompiledConfig → Option CompiledConfig
  stored (ok c) old = some c
  stored (err e) old = old

  -- Store
  unfoldable pub store :
      Option Snapshot → SnapshotHolder → Result HolderError (Unit {0}) × SnapshotHolder
  unfolding stored
  store none h = (err nil_stored, h)
  store (some s) h = (
    ok tt,
    record h { compiled = stored (compile_snapshot compile (some s)) h.compiled; current = some s },
  )

  module _ {D : Type 0} (fs : FileSystem D) (json : SnapshotJson) where
    -- the save whose error Apply drops
    persist : Bytes → Option Bytes → Option Snapshot → D → D
    persist temporary none s d = d
    persist temporary (some path) s d = (save_lkg fs json temporary path s d).1

    swap :
        Bytes
        → Option Snapshot
        → SnapshotHolder
        → D
        → Result CompileError CompiledConfig
        → Result CompileError (Unit {0}) × SnapshotHolder × D
    unfolding persist
    swap temporary s h d (err e) = (err e, h, d)
    swap temporary s h d (ok c) =
        (ok tt, record h { compiled = some c; current = s }, persist temporary h.lkg_path s d)

    unfoldable pub apply :
        Bytes
        → Option Snapshot
        → SnapshotHolder
        → D
        → Result CompileError (Unit {0}) × SnapshotHolder × D
    unfolding swap
    apply temporary s h d = swap temporary s h d (compile_snapshot compile s)

    applied :
        Snapshot
        → Result CompileError (Unit {0}) × SnapshotHolder × D
        → Result LkgError Snapshot × SnapshotHolder × D
    applied s (ok u, h, d) = (ok s, h, d)
    applied s (err e, h, d) = (err (not_applied e), h, d)

    start :
        Bytes
        → SnapshotHolder
        → D
        → Result LkgError Snapshot
        → Result LkgError Snapshot × SnapshotHolder × D
    unfolding applied
    start temporary h d (err e) = (err e, h, d)
    start temporary h d (ok s) = applied s (apply temporary (some s) h d)

    unfoldable pub load_startup_lkg :
        Bytes → Bytes → SnapshotHolder → D → Result LkgError Snapshot × SnapshotHolder × D
    unfolding start
    load_startup_lkg temporary path h d = start temporary h d (load_lkg fs json path d)
