-- ===== src/Rtl/Numbers/RoundTrip.antt =====
-- What `RtlIntegerToChar` prints, the parsers of nboxkrnl/rtl/strings.cpp read back.
use native.Mathlib.Nat.{pow-suc}
use nboxkrnl.Prelude.{
  ℕ, zero, suc, ◌+◌, ◌*◌, ◌/◌, ◌%◌, ◌^◌, ◌≤◌, ◌<◌, ◌≡◌, refl, ap, sym, ◌∙◌, arith, true, false,
  some, List, [], ◌∷◌, ◌++◌, length, ◌⊎◌, inl, inr, subst, some_inj,
}
use nboxkrnl.Rtl.Status.{success}
use nboxkrnl.Rtl.Numbers.{
  digit_of, digit_char, parse_digits, skip_spaces, skip_wide_spaces, split_sign, detect_base,
  negate, parse_signed, parse_base, char_to_integer, unicode_string_to_integer, print_digits,
  copy_digits, print_in_base, integer_to_char, is_base,
}

digit_of-digit_char : (d : ℕ) → d < 16 → digit_of (digit_char d) ≡ some d
unfolding digit_of digit_char
digit_of-digit_char d h = ground arith

-- One more digit in front.
parse_digits-digit_char :
    (base total d : ℕ) (cs : List ℕ)
    → d < base
    → base ≤ 16
    → parse_digits base total (digit_char d ∷ cs)
      ≡ parse_digits base ((total * base + d) % 2 ^ 32) cs
unfolding parse_digits
parse_digits-digit_char base total d cs h k =
    rw ((digit_of-digit_char d (omega arith), parse_digits)) (ground arith)

-- Printing and parsing are inverse, whatever digits follow.
parse_digits-print_digits :
    (room value base : ℕ) (digits text : List ℕ)
    → 1 < base
    → base ≤ 16
    → value < 2 ^ 32
    → print_digits room value base digits ≡ some text
    → parse_digits base 0 text ≡ parse_digits base value digits
unfolding print_digits
parse_digits-print_digits zero value base digits text h k l e = cc
parse_digits-print_digits (suc room) value base digits text h k l e =
    go (value / base) refl
      (parse_digits-print_digits room (value / base) base (digit_char (value % base) ∷ digits) text
        h k smaller)
      e
  where
    last : value % base < base
    last = grind arith

    value_digits : (value / base * base + value % base) % 2 ^ 32 ≡ value
    value_digits =
        let whole : value / base * base + value % base ≡ value = grind arith in omega arith

    smaller : value / base < 2 ^ 32
    smaller = grind arith

    add_last :
        parse_digits base (value / base) (digit_char (value % base) ∷ digits)
        ≡ parse_digits base value digits
    add_last =
        parse_digits-digit_char base (value / base) (value % base) digits last k
        ∙ ap (λ t. parse_digits base t digits) value_digits

    go :
        (q : ℕ)
        → value / base ≡ q
        → (print_digits room (value / base) base (digit_char (value % base) ∷ digits) ≡ some text
            → parse_digits base 0 text
              ≡ parse_digits base (value / base) (digit_char (value % base) ∷ digits))
        → (elim q [
          | zero ↦ some (digit_char (value % base) ∷ digits)
          | suc n ↦ print_digits room (value / base) base (digit_char (value % base) ∷ digits)
        ])
          ≡ some text
        → parse_digits base 0 text ≡ parse_digits base value digits
    go zero p ih e =
        ap (parse_digits base 0) (sym (some_inj e))
        ∙ ap (λ t. parse_digits base t (digit_char (value % base) ∷ digits)) (sym p)
        ∙ add_last
    go (suc q) p ih e = ih e ∙ add_last

-- A text of digits of a base.
abbrev IsDigits : ℕ → List ℕ → Type 0
IsDigits base [] = Unit {0}
IsDigits base (c ∷ cs) = ((d : ℕ) × (c ≡ digit_char d) × (d < base)) × IsDigits base cs

-- A value below `2 ^ room` fits, and its text is made of digits.
abbrev IsPrinted : ℕ → ℕ → ℕ → List ℕ → Type 0
IsPrinted room value base digits =
    (text : List ℕ) × (print_digits room value base digits ≡ some text)
    × (length text ≤ length digits + room)
    × (length digits < length text)
    × IsDigits base text

print_digits-IsPrinted :
    (room value base : ℕ) (digits : List ℕ)
    → 1 < base
    → value < 2 ^ room
    → 0 < room
    → IsDigits base digits
    → IsPrinted room value base digits
unfolding print_digits
print_digits-IsPrinted zero value base digits h l r i = absurd (omega arith)
print_digits-IsPrinted (suc room) value base digits h l r i = go (value / base) refl (λ positive.
    print_digits-IsPrinted room (value / base) base (digit_char (value % base) ∷ digits) h smaller
      positive ((value % base, refl, last), i))
  where
    last : value % base < base
    last = grind arith

    halved : value / base * 2 ≤ value
    halved = grind arith

    smaller : value / base < 2 ^ room
    smaller = omega (arith, halved, pow-suc 2 room)

    go :
        (q : ℕ)
        → value / base ≡ q
        → (0 < room → IsPrinted room (value / base) base (digit_char (value % base) ∷ digits))
        → (text : List ℕ) × ((elim q [
          | zero ↦ some (digit_char (value % base) ∷ digits)
          | suc n ↦ print_digits room (value / base) base (digit_char (value % base) ∷ digits)
        ])
            ≡ some text)
          × (length text ≤ length digits + suc room)
          × (length digits < length text)
          × IsDigits base text
    go zero p ih = (
      digit_char (value % base) ∷ digits,
      refl,
      omega arith,
      omega arith,
      ((value % base, refl, last), i),
    )
    go (suc q) p ih =
        let (text, e, short, long, all) =
          ih (room_left room (subst (λ x. x < 2 ^ room) p smaller)) in
        (text, e, omega arith, omega arith, all)
      where
        room_left : (n : ℕ) → suc q < 2 ^ n → 0 < n
        room_left zero h = absurd (omega arith)
        room_left (suc n) h = omega arith

-- A printed digit is no space, no sign and no prefix letter.
IsDigits-parse_base :
    (base : ℕ) (c : ℕ) (cs : List ℕ)
    → base ≤ 16
    → IsDigits base (c ∷ cs)
    → (skip_spaces (c ∷ cs) ≡ c ∷ cs)
      × (skip_wide_spaces (c ∷ cs) ≡ c ∷ cs)
      × (split_sign (c ∷ cs) ≡ (false, c ∷ cs))
unfolding skip_spaces skip_wide_spaces split_sign digit_char
IsDigits-parse_base base c cs k ((d, e, l), i) = ground arith

detect_base_decimal : (cs : List ℕ) → IsDigits 10 cs → detect_base cs ≡ (10, cs)
unfolding detect_base digit_char
detect_base_decimal [] i = refl
detect_base_decimal (c ∷ []) i = refl
detect_base_decimal (c ∷ b ∷ cs) ((i, m, n), ((d, e, l), j)) = ground arith

abbrev IsRead : ℕ → ℕ → ℕ → List ℕ → Type 0
IsRead value base room text =
    (print_in_base value base room true ≡ some (success, some (text ++ (0 ∷ []))))
    × (parse_signed true base (false, text) ≡ (success, some value))
    × (split_sign (skip_spaces text) ≡ (false, text))
    × (split_sign (skip_wide_spaces text) ≡ (false, text))
    × IsDigits base text

IsRead-integer_to_char :
    (value base room : ℕ)
    → value < 2 ^ 32
    → 1 < base
    → base ≤ 16
    → 33 ≤ room
    → (text : List ℕ) × IsRead value base room text
unfolding print_in_base copy_digits parse_signed negate
IsRead-integer_to_char value base room l h k r =
    let (text, e, short, long, all) =
      print_digits-IsPrinted 32 value base [] h l (omega arith) tt in
    let parsed = parse_digits-print_digits 32 value base [] text h k l e in
    read text e short long all parsed
  where
    read :
        (text : List ℕ)
        → print_digits 32 value base [] ≡ some text
        → length text ≤ 32
        → 0 < length text
        → IsDigits base text
        → parse_digits base 0 text ≡ parse_digits base value []
        → (text : List ℕ) × IsRead value base room text
    read [] e short long all parsed = absurd (omega arith)
    read (c ∷ cs) e short long all parsed =
        let (narrow, wide, sign) = IsDigits-parse_base base c cs k all in
        (
          c ∷ cs,
          (
            rw (e, print_in_base) (ground arith),
            rw parsed (unfold parse_digits in refl),
            ap split_sign narrow ∙ sign,
            ap split_sign wide ∙ sign,
            all,
          ),
        )

-- For a base argument of 0, 2, 8, 10 or 16 the digits of a 32-bit value fit the buffer of the routine.
-- With a buffer of at least 33 bytes `RtlIntegerToChar` succeeds and writes a text that ends in a NUL,
-- and both parsers, given the same base argument, read the value back from that text.
pub char_to_integer-integer_to_char :
    (value base room : ℕ)
    → value < 2 ^ 32
    → (base ≡ 0) ⊎ (is_base base ≡ true)
    → 33 ≤ room
    → (text : List ℕ) × (integer_to_char value base room true
        ≡ some (success, some (text ++ (0 ∷ []))))
      × (char_to_integer text base true ≡ (success, some value))
      × (unicode_string_to_integer text base true ≡ (success, some value))
unfolding integer_to_char char_to_integer unicode_string_to_integer parse_base
char_to_integer-integer_to_char value base room l (inl z) r =
    let (text, read) = IsRead-integer_to_char value 10 room l (omega arith) (omega arith) r in
    let (printed, parsed, narrow, wide, all) = read in
    let detected = detect_base_decimal text all in
    (
      text,
      ground (arith, printed),
      ap (parse_base true base) narrow ∙ decimal text detected parsed,
      ap (parse_base true base) wide ∙ decimal text detected parsed,
    )
  where
    decimal :
        (text : List ℕ)
        → detect_base text ≡ (10, text)
        → parse_signed true 10 (false, text) ≡ (success, some value)
        → parse_base true base (false, text) ≡ (success, some value)
    decimal text detected parsed = ground (arith, detected, parsed)
char_to_integer-integer_to_char value base room l (inr i) r =
    let (text, read) = IsRead-integer_to_char value base room l (ground arith) (ground arith) r in
    let (printed, parsed, narrow, wide, all) = read in
    (
      text,
      ground (arith, printed),
      ap (parse_base true base) narrow ∙ given text parsed,
      ap (parse_base true base) wide ∙ given text parsed,
    )
  where
    given :
        (text : List ℕ)
        → parse_signed true base (false, text) ≡ (success, some value)
        → parse_base true base (false, text) ≡ (success, some value)
    given text parsed = ground (arith, parsed)
