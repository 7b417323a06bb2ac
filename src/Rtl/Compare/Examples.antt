-- ===== src/Rtl/Compare/Examples.antt =====
-- The comparisons of nboxkrnl/rtl/compare.cpp at concrete strings and blocks.
use nboxkrnl.Prelude.{ℕ, ◌≡◌, ◌↔◌, arith, true, [], ◌∷◌, List}
use nboxkrnl.Prelude.Int.{pos}
use nboxkrnl.Rtl.Strings.{CountedString}
use nboxkrnl.Rtl.Compare.{compare_unicode_string, equal_unicode_string}
use nboxkrnl.Rtl.Compare.Strings.{compare_unicode_string-equal_unicode_string}

abbrev low : CountedString
low = record { length = 4; maximum_length = 4; buffer = b'a' ∷ b'b' ∷ b'c' ∷ b'1' ∷ [] }

abbrev high : CountedString
high = record { length = 4; maximum_length = 4; buffer = b'A' ∷ b'B' ∷ b'C' ∷ b'1' ∷ [] }

compare_unicode_string-equal_unicode_string_example :
    (compare_unicode_string low high true ≡ pos 0) ↔ (equal_unicode_string low high true ≡ true)
compare_unicode_string-equal_unicode_string_example =
    compare_unicode_string-equal_unicode_string low high true (ground arith) (ground arith)

abbrev block : List ℕ
block = 7 ∷ 7 ∷ 8 ∷ []

abbrev other_block : List ℕ
other_block = 7 ∷ 7 ∷ 9 ∷ []
