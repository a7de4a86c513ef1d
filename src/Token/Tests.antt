-- ===== src/Token/Tests.antt =====
-- Runs of the keyword table.
use mx.Common.{text_eq, Text, codes, ◌≡◌, refl, true, false, none}
use mx.Token.{branded}
use mx.Token.Keywords.{keyword_from_str, find_arm, describe}
use mx.Token.Described.{quoted, keyword_from_str-describe}

branded_plain : keyword_from_str {F = Text} (codes "BRANDED") false ≡ none
unfolding keyword_from_str find_arm text_eq
branded_plain = refl

keyword_from_str-describe_example : describe {F = Text} branded ≡ quoted (codes "BRANDED")
unfolding keyword_from_str find_arm text_eq
keyword_from_str-describe_example =
    keyword_from_str-describe Text (codes "BRANDED") true branded refl
