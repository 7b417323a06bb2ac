-- ===== src/Rtl/Compare.antt =====
-- nboxkrnl/rtl/compare.cpp, and `RtlEqualString` of nboxkrnl/rtl/strings.cpp with the case conversions
-- of nboxkrnl/rtl/rtl.hpp. A loop that would read behind the list stops there; no loop does so
-- where the buffer holds `length` bytes.
pub mod Strings
pub mod Memory
mod Examples
use nboxkrnl.Prelude.{
  ℕ, zero, suc, ◌+◌, ◌-◌, ◌*◌, ◌/◌, Bool, true, false, Option, none, some, List, [], ◌∷◌, ltb, leb,
  ◌==◌, ◌&&◌, not, if◌then◌else◌,
}
use nboxkrnl.Rtl.Strings.{CountedString}
use nboxkrnl.Prelude.Int.{ℤ, pos, ◌-ℤ◌, sub_ℕ}

abbrev pub is_within : ℕ → ℕ → ℕ → Bool
is_within lo hi c = leb lo c && leb c hi

-- `CharCode ^= 0x20` sets a bit that is clear in these ranges.
unfoldable pub lower_char : ℕ → ℕ
lower_char c =
    if is_within b'A' b'Z' c
    then c + 32
    else if is_within 192 222 c && not (c == 215)
    then c + 32
    else c

-- `CharCode ^= 0x20` clears a bit that is set in these ranges.
unfoldable pub upper_char : ℕ → ℕ
upper_char c =
    if is_within b'a' b'z' c
    then c - 32
    else if is_within 224 254 c && not (c == 247)
    then c - 32
    else if c == 255
    then b'?'
    else c

unfoldable pub upcase_unicode_char : ℕ → ℕ
upcase_unicode_char c = if ltb c b'a' then c else if leb c b'z' then c - 32 else c

-- A CHAR as an int.
abbrev pub signed_char : ℕ → ℤ
signed_char c = sub_ℕ c (if ltb c 128 then 0 else 256)

-- `RtlCompareMemory`: the loop, from an index on.
unfoldable pub compare_memory : List ℕ → List ℕ → ℕ → ℕ
compare_memory (x ∷ xs) (y ∷ ys) (suc n) =
    let rest = compare_memory xs ys n in if not (x == y) then 0 else suc rest
compare_memory xs ys n = 0

unfoldable pub count_pattern : ℕ → List ℕ → ℕ → ℕ
count_pattern pattern (x ∷ xs) (suc len) =
    let rest = count_pattern pattern xs len in if not (x == pattern) then 0 else suc rest
count_pattern pattern xs len = 0

-- The number of bytes in front of the first ULONG that is not the pattern.
unfoldable pub compare_memory_ulong : List ℕ → ℕ → ℕ → ℕ
compare_memory_ulong source length pattern = count_pattern pattern source (length / 4) * 4

-- The loops of the two comparisons: the difference of the first two units that are not equal.
unfoldable pub first_difference : (ℕ → ℕ) → (ℕ → ℤ) → ℕ → List ℕ → List ℕ → Option ℤ
first_difference fold value (suc n) (x ∷ xs) (y ∷ ys) =
    let rest = first_difference fold value n xs ys in
    if not (fold x == fold y) then some (value (fold x) -ℤ value (fold y)) else rest
first_difference fold value n xs ys = none

abbrev same : ℕ → ℕ
same c = c

abbrev or_lengths : ℕ → ℕ → Option ℤ → ℤ
or_lengths l1 l2 none = sub_ℕ l1 l2
or_lengths l1 l2 (some d) = d

abbrev pub shorter : ℕ → ℕ → ℕ
shorter l1 l2 = if leb l1 l2 then l1 else l2

unfoldable pub compare_string : CountedString → CountedString → Bool → ℤ
compare_string s t case_insensitive = or_lengths s.length t.length (
    if case_insensitive
    then first_difference lower_char pos (shorter s.length t.length) s.buffer t.buffer
    else first_difference same signed_char (shorter s.length t.length) s.buffer t.buffer)

unfoldable pub compare_unicode_string : CountedString → CountedString → Bool → ℤ
compare_unicode_string s t case_insensitive = or_lengths s.length t.length (
    if case_insensitive
    then first_difference upcase_unicode_char pos (shorter s.length t.length / 2) s.buffer t.buffer
    else first_difference same pos (shorter s.length t.length / 2) s.buffer t.buffer)

-- The loops of the two tests for equality.
unfoldable pub equal_units : (ℕ → ℕ) → ℕ → List ℕ → List ℕ → Bool
equal_units fold (suc n) (x ∷ xs) (y ∷ ys) =
    let rest = equal_units fold n xs ys in
    if not (x == y) then (if not (fold x == fold y) then false else rest) else rest
equal_units fold n xs ys = true

unfoldable pub equal_string : CountedString → CountedString → Bool → Bool
equal_string s t case_insensitive =
    if not (s.length == t.length)
    then false
    else if case_insensitive
    then equal_units upper_char s.length s.buffer t.buffer
    else equal_units same s.length s.buffer t.buffer

unfoldable pub equal_unicode_string : CountedString → CountedString → Bool → Bool
equal_unicode_string s t case_insensitive =
    if s.length == t.length
    then (if case_insensitive
        then equal_units upcase_unicode_char (s.length / 2) s.buffer t.buffer
        else equal_units same (s.length / 2) s.buffer t.buffer)
    else false
