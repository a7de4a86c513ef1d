-- ===== src/Json/Tests.antt =====
-- Runs of the parser and the serializer, over numbers that are kept as their texts.
use mx.Common.{true, Text, codes, text_eq, ◌≡◌, ◌≢◌, ◌↔◌, ◌++◌, all, refl, ok, err}
use mx.Common.Decimal.{i64_to_string}
use mx.Json.{Json, bool, number, str, array, object, nil, cons, end, field}
use mx.Json.TextFloat.{text_float}
use mx.Json.Write.{write_char, write_chars, write_string, write_number, serialize, write}
use mx.Json.Escapes.{is_clean, reread, reread_chars}
use mx.Json.Lexemes.{reread_number, parse_string-clean}
use mx.Json.Reread.{finite, reread_value}
use mx.Json.RoundTrip.{parse-serialize}
use mx.Json.Total.{parse-ne-out_of_fuel}
use mx.Json.Read.{
  out_of_fuel, unterminated_string, skip_ws, is_whitespace, string_loop, expect, parse_string,
  number_text, strip, read_escape, parse_number, parse_bool, parse_null,
}
use mx.Json.Parse.{parse, parse_value, value_at, parse_array, parse_object, after_item, after_entry}

abbrev document : Json Text
document = object (
    field (codes "a") (array (cons (number (codes "-1.5")) (cons (bool true) nil)))
      (field (codes "b\n") (str (codes "x\"y")) end))

serialize-document : serialize text_float document ≡ codes "{\"a\":[-1.5,true],\"b\\n\":\"x\\\"y\"}"
unfolding serialize write write_string write_chars write_number write_char text_eq i64_to_string
serialize-document = refl

parse-spaced :
    parse text_float (codes " {\"a\" : [ -1.5 ,true],\n \"b\\n\":\"x\\\"y\" }  !") ≡ ok document
unfolding parse parse_value value_at parse_array parse_object after_item after_entry skip_ws
    string_loop expect parse_string number_text strip read_escape parse_number parse_bool parse_null
    is_whitespace
parse-spaced = refl

parse_open_string : parse text_float (codes "\"abc") ≡ err unterminated_string
unfolding parse parse_value value_at parse_string expect skip_ws is_whitespace string_loop
parse_open_string = refl

abbrev spoiled : Json Text
spoiled = array (cons (str (codes "a\r")) (cons (number (codes "2")) nil))

parse-serialize_example :
    parse text_float (serialize text_float spoiled) ≡ ok (reread_value text_float spoiled)
parse-serialize_example = parse-serialize text_float spoiled (unfold finite in refl)

-- The carriage return is read as a backslash and an r.
reread-spoiled :
    reread_value text_float spoiled
    ≡ array (cons (str (codes "a\\r")) (cons (number (codes "2")) nil))
unfolding reread_value reread_chars reread reread_number write_char text_eq i64_to_string
reread-spoiled = refl

parse-ne-out_of_fuel_example : parse text_float (codes "[[[") ≢ err out_of_fuel
parse-ne-out_of_fuel_example = parse-ne-out_of_fuel text_float (codes "[[[")

parse_string-clean_example :
    (parse_string text_float 9 (write_string (codes "a\r") ++ codes ":")
      ≡ ok (codes "a\r", codes ":"))
    ↔ (all is_clean (codes "a\r") ≡ true)
parse_string-clean_example = parse_string-clean text_float 9 (codes "a\r") (codes ":")
