-- ===== src/Json.antt =====
-- The JSON values of src/json.rs: the data type, the builder helpers and the accessors.
-- The serializer is in Write; the parser's lexical part is in Read and its recursion over values in
-- Parse; Number has what is assumed of `f64`.
pub mod Number
pub mod Write
pub mod Read
pub mod Parse
pub mod Access
pub mod Escapes
pub mod Lexemes
pub mod Reread
pub mod Levels
pub mod RoundTrip
pub mod Fuel
pub mod Total
pub mod TextFloat
mod Tests
use mx.Common.{Bool, Text}

-- `Json`, over the type `F` that stands for `f64`. The vectors are types of the block: `Items` is
-- `Vec<Json>` and `Fields` is `Vec<(String, Json)>`.
mutual
  pub data Json (F : Type 0) : Type 0 where
    null : Json F
    bool : Bool → Json F
    number : F → Json F
    str : Text → Json F
    array : Items F → Json F
    object : Fields F → Json F

  pub data Items (F : Type 0) : Type 0 where
    nil : Items F
    cons : Json F → Items F → Items F

  pub data Fields (F : Type 0) : Type 0 where
    end : Fields F
    field : Text → Json F → Fields F → Fields F
