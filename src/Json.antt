-- ===== src/Json.antt =====
-- The values of serde_json that the program builds. A number is a natural one here.
use ghactions_rust_test.Prelude.{ℕ, Text}

mutual
  pub data Json : Type 0 where
    null : Json
    string : Text → Json
    number : ℕ → Json
    array : Items → Json
    object : Fields → Json

  pub data Items : Type 0 where
    no_items : Items
    item : Json → Items → Items

  pub data Fields : Type 0 where
    no_fields : Fields
    field : Text → Json → Fields → Fields
