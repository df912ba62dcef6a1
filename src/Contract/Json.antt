-- ===== src/Contract/Json.antt =====
-- The values that the contract layer leaves `unknown`. A number is a whole number of millionths.
use corellia.Prelude.{String, Bool}
use corellia.Prelude.Int.{ℤ}

mutual
  pub data Json : Type 0 where
    null : Json
    bool : Bool → Json
    num : ℤ → Json
    str : String → Json
    arr : Items → Json
    obj : Fields → Json

  pub data Items : Type 0 where
    nil : Items
    cons : Json → Items → Items

  pub data Fields : Type 0 where
    end : Fields
    field : String → Json → Fields → Fields
