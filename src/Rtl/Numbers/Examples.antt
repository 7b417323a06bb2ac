-- ===== src/Rtl/Numbers/Examples.antt =====
-- The round trip of strings.cpp at a value in base 16.
use nboxkrnl.Prelude.{ℕ, ◌≡◌, refl, some, true, inr, List, [], ◌∷◌, ◌++◌, arith}
use nboxkrnl.Rtl.Status.{success}
use nboxkrnl.Rtl.Numbers.{integer_to_char, char_to_integer, unicode_string_to_integer}
use nboxkrnl.Rtl.Numbers.RoundTrip.{char_to_integer-integer_to_char}

char_to_integer-integer_to_char_example :
    (text : List ℕ) × (integer_to_char 0xbeef 16 40 true ≡ some (success, some (text ++ (0 ∷ []))))
    × (char_to_integer text 16 true ≡ (success, some 0xbeef))
    × (unicode_string_to_integer text 16 true ≡ (success, some 0xbeef))
char_to_integer-integer_to_char_example =
    char_to_integer-integer_to_char 0xbeef 16 40 (omega arith) (inr refl) (omega arith)
