-- ===== src/Prelude/Json.antt =====
-- Values of Go's `any` as encoding/json and the configuration produce them.
use torana_enterprise.Prelude.Bytes.{Bytes}
use torana_enterprise.Prelude.Int.{ℤ}
use mathlib.Core.Bool.{Bool}

mutual
  pub data Json : Type 0 where
    null : Json
    bool : Bool → Json
    num : ℤ → Json
    str : Bytes → Json
    arr : Items → Json
    obj : Fields → Json

  pub data Items : Type 0 where
    nil : Items
    cons : Json → Items → Items

  pub data Fields : Type 0 where
    end : Fields
    field : Bytes → Json → Fields → Fields
