-- ===== src/Config/Holder/Coherent.antt =====
-- That the snapshot and the compiled form of a holder belong together (internal/config/config.go,
-- SnapshotHolder).
use torana_enterprise.Prelude.{◌≡◌, ◌≢◌, refl, Option, none, some}
use torana_enterprise.Prelude.Results.{Result, ok, err}
use torana_enterprise.Prelude.Bytes.{Bytes}
use torana_enterprise.Config.Types.{Regex, Snapshot, CompileError}
use torana_enterprise.Config.Compile.{CompiledConfig, compile_snapshot}
use torana_enterprise.Config.Holder.{FileSystem, SnapshotJson, SnapshotHolder, swap, apply}

module _ (compile : Bytes → Result Bytes Regex) where
  abbrev Forms : Option Snapshot → Option CompiledConfig → Type 0
  Forms none none = Unit
  Forms none (some c) = ⊥
  Forms (some s) none = ⊥
  Forms (some s) (some c) = compile_snapshot compile (some s) ≡ ok c

  -- The compiled form is that of the snapshot, or there is neither.
  abbrev pub IsCoherent : SnapshotHolder → Type 0
  IsCoherent h = Forms h.current h.compiled

  module _ {D : Type 0} (fs : FileSystem D) (json : SnapshotJson) where
    -- What Apply answers and leaves: with an error, the holder and the files as they were.
    abbrev pub Applies :
        Option Snapshot
        → SnapshotHolder
        → D
        → Result CompileError (Unit {0}) × SnapshotHolder × D
        → Type 0
    Applies s h d (ok u, h', d') = IsCoherent h' × (h'.current ≡ s) × (s ≢ none)
    Applies s h d (err e, h', d') = (compile_snapshot compile s ≡ err e) × (h' ≡ h) × (d' ≡ d)

    swapped :
        (t : Bytes) (s : Option Snapshot) (h : SnapshotHolder) (d : D)
        (x : Result CompileError CompiledConfig)
        → compile_snapshot compile s ≡ x
        → Applies s h d (swap compile fs json t s h d x)
    unfolding swap
    swapped t none h d (ok c) e = unfold compile_snapshot in cc
    swapped t (some s) h d (ok c) e = (e, refl, λ q. cc)
    swapped t s h d (err r) e = (e, refl, refl)

    -- Apply either succeeds, with a snapshot that is not nil, and leaves it with its own compiled form, or
    -- returns the error of CompileSnapshot and changes neither the holder nor the files.
    pub apply-Applies :
        (t : Bytes) (s : Option Snapshot) (h : SnapshotHolder) (d : D)
        → Applies s h d (apply compile fs json t s h d)
    unfolding apply
    apply-Applies t s h d = swapped t s h d (compile_snapshot compile s) refl
