-- ===== src/Json/Reread.antt =====
-- What a value becomes when it is serialized and parsed again (src/json.rs): its strings and numbers
-- are replaced by what is read where they were written.
use mx.Common.{Bool, true, false, ◌&&◌}
use mx.Json.{Json, null, bool, number, str, array, object, Items, nil, cons, Fields, end, field}
use mx.Json.Escapes.{reread_chars}
use mx.Json.Lexemes.{reread_number}
use mx.Json.Number.{Float}

module _ (fl : Float) where
  open fl use {F, is_finite}

  -- Every number in the value is finite.
  unfoldable mutual
    pub finite : Json F → Bool
    finite null = true
    finite (bool b) = true
    finite (number n) = is_finite n
    finite (str s) = true
    finite (array vs) = finite_items vs
    finite (object fs) = finite_fields fs

    pub finite_items : Items F → Bool
    finite_items nil = true
    finite_items (cons v vs) = finite v && finite_items vs

    pub finite_fields : Fields F → Bool
    finite_fields end = true
    finite_fields (field k v fs) = finite v && finite_fields fs

  -- What is read where the value was written.
  unfoldable mutual
    pub reread_value : Json F → Json F
    reread_value null = null
    reread_value (bool b) = bool b
    reread_value (number n) = number (reread_number fl n)
    reread_value (str s) = str (reread_chars s)
    reread_value (array vs) = array (reread_items vs)
    reread_value (object fs) = object (reread_fields fs)

    pub reread_items : Items F → Items F
    reread_items nil = nil
    reread_items (cons v vs) = cons (reread_value v) (reread_items vs)

    pub reread_fields : Fields F → Fields F
    reread_fields end = end
    reread_fields (field k v fs) = field (reread_chars k) (reread_value v) (reread_fields fs)

abbrev pub is_cons : {F : Type 0} → Items F → Bool
is_cons nil = false
is_cons (cons v vs) = true

abbrev pub is_field : {F : Type 0} → Fields F → Bool
is_field end = false
is_field (field k v fs) = true
