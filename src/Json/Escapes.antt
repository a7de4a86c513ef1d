-- ===== src/Json/Escapes.antt =====
-- What `parse_string` makes of a string that `write_to` wrote (src/json.rs).
use mx.Common.{
  refl, ◌↔◌, ◌≤◌, ◌<◌, false, length, length-append, Bool-cases, inl, inr, ℕ, ◌/◌, ◌%◌, ◌≡◌, ap,
  ◌∙◌, Bool, true, ◌&&◌, ◌||◌, not, Text, [], ◌∷◌, ◌++◌, append-nil, append_assoc, arith, leb, ◌==◌,
  if◌then◌else◌, all, ok,
}
use mx.Json.Write.{hex_digit, escape_control, write_char, write_chars}
use mx.Json.Read.{string_loop, read_escape}

-- The characters whose escapes are read back: all but the controls other than \n and \t.
abbrev pub is_clean : ℕ → Bool
is_clean c = leb 0x20 c || c == b'\n' || c == b'\t'

-- What is read where `c` was written.
unfoldable pub reread : ℕ → Text
reread c = if is_clean c then c ∷ [] else write_char c

unfoldable pub reread_chars : Text → Text
reread_chars [] = []
reread_chars (c ∷ cs) = reread c ++ reread_chars cs

abbrev is_plain_char : ℕ → Bool
is_plain_char c = not (c == b'"') && not (c == b'\\')

-- A character that is no quote and no backslash is pushed.
string_loop-plain :
    (s cs rest : Text)
    → all is_plain_char cs ≡ true
    → string_loop s (cs ++ rest) ≡ string_loop (s ++ cs) rest
unfolding string_loop
string_loop-plain s [] rest h = rw append-nil
string_loop-plain s (c ∷ cs) rest h =
    let tail : string_loop (s ++ c ∷ []) (cs ++ rest) ≡ string_loop (s ++ (c ∷ cs)) rest =
      string_loop-plain (s ++ c ∷ []) cs rest (ground arith)
      ∙ ap (λ t. string_loop t rest) (append_assoc s (c ∷ []) cs) in
    ground (arith, tail)

hex_plain :
    (c : ℕ) → all is_plain_char (b'0' ∷ b'0' ∷ hex_digit (c / 16) ∷ hex_digit (c % 16) ∷ []) ≡ true
unfolding hex_digit
hex_plain c = ground arith

string_loop-control :
    (s : Text) (c : ℕ) (rest : Text)
    → string_loop s (escape_control c ++ rest) ≡ string_loop (s ++ escape_control c) rest
unfolding string_loop read_escape escape_control
string_loop-control s c rest =
    string_loop-plain (s ++ b'\\' ∷ b'u' ∷ [])
      (b'0' ∷ b'0' ∷ hex_digit (c / 16) ∷ hex_digit (c % 16) ∷ []) rest (hex_plain c)
    ∙ ap (λ t. string_loop t rest) (append_assoc s _ _)

string_loop-write_char :
    (s : Text) (c : ℕ) (rest : Text)
    → string_loop s (write_char c ++ rest) ≡ string_loop (s ++ reread c) rest
unfolding string_loop write_char reread read_escape
string_loop-write_char s c rest = ground (arith, string_loop-control s c rest)

pub string_loop-write_chars :
    (s cs rest : Text)
    → string_loop s (write_chars cs ++ b'"' ∷ rest) ≡ ok (s ++ reread_chars cs, rest)
unfolding write_chars reread_chars string_loop
string_loop-write_chars s [] rest = rw append-nil
string_loop-write_chars s (c ∷ cs) rest =
    ap (string_loop s) (append_assoc (write_char c) (write_chars cs) (b'"' ∷ rest))
    ∙ string_loop-write_char s c (write_chars cs ++ b'"' ∷ rest)
    ∙ string_loop-write_chars (s ++ reread c) cs rest
    ∙ ap (λ t. ok (t, rest)) (append_assoc s (reread c) (reread_chars cs))

pub reread-clean : (cs : Text) → all is_clean cs ≡ true → reread_chars cs ≡ cs
unfolding reread_chars reread
reread-clean [] h = refl
reread-clean (c ∷ cs) h = ground (arith, reread-clean cs)

-- A character that is not clean comes back as two or more.
length-reread : (c : ℕ) → (1 ≤ length (reread c)) × (is_clean c ≡ false → 1 < length (reread c))
unfolding reread write_char escape_control
length-reread c = ground arith

length-reread_chars :
    (cs : Text)
    → (length cs ≤ length (reread_chars cs))
      × (all is_clean cs ≡ false → length cs < length (reread_chars cs))
unfolding reread_chars
length-reread_chars [] = (omega arith, λ h. cc)
length-reread_chars (c ∷ cs) =
    rw (length-append (reread c) (reread_chars cs))
      (ground (arith, length-reread c, length-reread_chars cs))

pub reread-clean_iff : (cs : Text) → (all is_clean cs ≡ true) ↔ (reread_chars cs ≡ cs)
reread-clean_iff cs = (
  reread-clean cs,
  λ e. elim (Bool-cases (all is_clean cs)) [
    | inl h ↦ h
    | inr h ↦ let longer = (length-reread_chars cs).1 h in absurd (omega (arith, ap length e))
  ],
)
