-- ===== src/Rtl/Numbers.antt =====
-- `RtlCharToInteger`, `RtlUnicodeStringToInteger` and `RtlIntegerToChar` of nboxkrnl/rtl/strings.cpp.
-- A text that ends in a NUL is the list of its bytes without the NUL. `CHAR` is signed, so a byte of
-- 128 or more compares below every other. A counted string is the list of its UTF-16 units. The
-- Boolean argument says whether the pointer for the result is other than NULL, and the second
-- component of the result is what is written through it.
pub mod RoundTrip
mod Examples
use nboxkrnl.Prelude.{
  ℕ, zero, suc, ◌+◌, ◌-◌, ◌*◌, ◌/◌, ◌%◌, ◌^◌, Bool, true, false, Option, none, some, List, [], ◌∷◌,
  ◌++◌, length, ltb, leb, ◌==◌, ◌&&◌, ◌||◌, not, if◌then◌else◌,
}
use nboxkrnl.Rtl.Status.{Status, success, invalid_parameter, access_violation, buffer_overflow}

abbrev pub is_between : ℕ → ℕ → ℕ → Bool
is_between lo hi c = leb lo c && leb c hi

-- `digit` in both parsers; `none` is -1.
unfoldable pub digit_of : ℕ → Option ℕ
digit_of c =
    if is_between b'0' b'9' c
    then some (c - b'0')
    else if is_between b'A' b'Z' c
    then some (c - b'A' + 10)
    else if is_between b'a' b'z' c
    then some (c - b'a' + 10)
    else none

abbrev pub is_base : ℕ → Bool
is_base base = base == 2 || base == 8 || base == 10 || base == 16

-- The loop over the digits, in 32-bit arithmetic.
unfoldable pub parse_digits : ℕ → ℕ → List ℕ → ℕ
parse_digits base total [] = total
parse_digits base total (c ∷ cs) = elim (digit_of c) [
  | none ↦ total
  | some digit ↦ elim (ltb digit base) [
    | true ↦ parse_digits base ((total * base + digit) % 2 ^ 32) cs
    | false ↦ total
  ]
]

-- `while (*String != '\0' && *String <= ' ') String++;`
unfoldable pub skip_spaces : List ℕ → List ℕ
skip_spaces [] = []
skip_spaces (c ∷ cs) = let rest = skip_spaces cs in if leb c b' ' || leb 128 c then rest else c ∷ cs

-- The same for unsigned UTF-16 units.
unfoldable pub skip_wide_spaces : List ℕ → List ℕ
skip_wide_spaces [] = []
skip_wide_spaces (c ∷ cs) = let rest = skip_wide_spaces cs in if leb c b' ' then rest else c ∷ cs

-- Whether there is a minus sign, and what follows the sign.
unfoldable pub split_sign : List ℕ → Bool × List ℕ
split_sign [] = (false, [])
split_sign (c ∷ cs) =
    if c == b'+' then (false, cs) else if c == b'-' then (true, cs) else (false, c ∷ cs)

-- The base and what follows its prefix, for a base argument of 0.
unfoldable pub detect_base : List ℕ → ℕ × List ℕ
detect_base (c ∷ d ∷ cs) =
    if not (c == b'0')
    then (10, c ∷ d ∷ cs)
    else if d == b'b'
    then (2, cs)
    else if d == b'o'
    then (8, cs)
    else if d == b'x'
    then (16, cs)
    else (10, c ∷ d ∷ cs)
detect_base cs = (10, cs)

unfoldable pub negate : Bool → ℕ → ℕ
negate true total = (2 ^ 32 - total) % 2 ^ 32
negate false total = total

unfoldable pub parse_signed : Bool → ℕ → Bool × List ℕ → Status × Option ℕ
parse_signed has_value base (minus, cs) =
    if not has_value
    then (access_violation, none)
    else (success, some (negate minus (parse_digits base 0 cs)))

unfoldable pub parse_base : Bool → ℕ → Bool × List ℕ → Status × Option ℕ
parse_base has_value base (minus, cs) =
    if base == 0
    then parse_signed has_value (detect_base cs).0 (minus, (detect_base cs).1)
    else if is_base base
    then parse_signed has_value base (minus, cs)
    else (invalid_parameter, none)

unfoldable pub char_to_integer : List ℕ → ℕ → Bool → Status × Option ℕ
char_to_integer text base has_value = parse_base has_value base (split_sign (skip_spaces text))

unfoldable pub unicode_string_to_integer : List ℕ → ℕ → Bool → Status × Option ℕ
unicode_string_to_integer text base has_value =
    parse_base has_value base (split_sign (skip_wide_spaces text))

unfoldable pub digit_char : ℕ → ℕ
digit_char digit = if ltb digit 10 then b'0' + digit else b'A' + digit - 10

-- The do-while loop, which fills the buffer from its end; `room` is the number of free bytes in front
-- of the digits, and `none` is a write before the buffer.
unfoldable pub print_digits : ℕ → ℕ → ℕ → List ℕ → Option (List ℕ)
print_digits zero value base digits = none
print_digits (suc room) value base digits = elim (value / base) [
  | zero ↦ some (digit_char (value % base) ∷ digits)
  | suc n ↦ print_digits room (value / base) base (digit_char (value % base) ∷ digits)
]

-- The bytes that `RtlCopyMemory` writes: the terminating NUL is among them if there is room for it.
unfoldable pub copy_digits : ℕ → Bool → List ℕ → Status × Option (List ℕ)
copy_digits room has_text digits =
    if ltb room (length digits)
    then (buffer_overflow, none)
    else if not has_text
    then (access_violation, none)
    else if length digits == room
    then (success, some digits)
    else (success, some (digits ++ (0 ∷ [])))

unfoldable pub print_in_base : ℕ → ℕ → ℕ → Bool → Option (Status × Option (List ℕ))
print_in_base value base room has_text = elim (print_digits 32 value base []) [
  | none ↦ none
  | some digits ↦ some (copy_digits room has_text digits)
]

-- `none` is a write outside `buffer[33]`.
unfoldable pub integer_to_char : ℕ → ℕ → ℕ → Bool → Option (Status × Option (List ℕ))
integer_to_char value base room has_text =
    if base == 0
    then print_in_base value 10 room has_text
    else if is_base base
    then print_in_base value base room has_text
    else some (invalid_parameter, none)
