-- ===== src/Models/Json.antt =====
-- What `encoding/json` decodes into an `any`: the keys of an object in the order of the association list.
use opendash.Prelude.{ℕ, String, Bool}

-- A float64 by its 64 bits. The program copies such values and computes with none.
abbrev pub Float64 : Type 0
Float64 = ℕ

mutual
  pub data Json : Type 0 where
    null : Json
    bool : Bool → Json
    number : Float64 → Json
    string : String → Json
    array : Items → Json
    object : Fields → Json

  pub data Items : Type 0 where
    no_items : Items
    item : Json → Items → Items

  pub data Fields : Type 0 where
    no_fields : Fields
    field : String → Json → Fields → Fields
