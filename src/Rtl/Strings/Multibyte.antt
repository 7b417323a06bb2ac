-- ===== src/Rtl/Strings/Multibyte.antt =====
-- The conversions between CHARs and WCHARs of nboxkrnl/rtl/strings.cpp against each other.
use nboxkrnl.Prelude.{
  ℕ, zero, suc, ◌*◌, ◌/◌, ◌≤◌, ◌<◌, ◌≡◌, refl, ap, arith, false, List, [], ◌∷◌, length, take,
  length-map, map, ltb, if◌then◌else◌,
}
use nboxkrnl.Rtl.Strings.{widen_char, narrow_char, multi_byte_to_unicode, unicode_to_multi_byte}

narrow_char-widen_char :
    (default_char c : ℕ)
    → c < 256
    → narrow_char default_char (widen_char c) ≡ (if ltb c 128 then c else default_char)
unfolding narrow_char widen_char
narrow_char-widen_char default_char c h = ground arith

abbrev pub IsBytes : List ℕ → Type 0
IsBytes [] = Unit
IsBytes (c ∷ cs) = (c < 256) × IsBytes cs

abbrev pub ascii_or : ℕ → ℕ → ℕ
ascii_or default_char c = if ltb c 128 then c else default_char

narrow_char-widen_chars :
    (default_char : ℕ) (cs : List ℕ)
    → IsBytes cs
    → map (narrow_char default_char) (map widen_char cs) ≡ map (ascii_or default_char) cs
narrow_char-widen_chars default_char [] h = refl
narrow_char-widen_chars default_char (c ∷ cs) h =
    ground (arith, narrow_char-widen_char default_char c, narrow_char-widen_chars default_char cs)

take_all : (n : ℕ) (xs : List ℕ) → length xs ≤ n → take n xs ≡ xs
take_all zero [] h = refl
take_all zero (x ∷ xs) h = ground arith
take_all (suc n) [] h = refl
take_all (suc n) (x ∷ xs) h = ap (◌∷◌ x) (take_all n xs (omega arith))

-- Bytes that are widened by `RtlMultiByteToUnicodeN` and narrowed by `RtlUnicodeToMultiByteN`, with room
-- for all of them, come back if they are ASCII. Every other byte comes back as the default character.
pub unicode_to_multi_byte-multi_byte_to_unicode :
    (default_char room : ℕ) (bytes : List ℕ)
    → IsBytes bytes
    → length bytes * 2 ≤ room
    → let (units, size) = multi_byte_to_unicode room bytes in
      (size ≡ length bytes * 2)
      × (unicode_to_multi_byte default_char (length bytes) units
          ≡ (map (ascii_or default_char) bytes, length bytes))
unfolding multi_byte_to_unicode unicode_to_multi_byte
unicode_to_multi_byte-multi_byte_to_unicode default_char room bytes h r =
    let c : ltb (room / 2) (length bytes) ≡ false = ground arith in
    let all = take_all (length bytes) bytes (omega arith) in
    let same_length = length-map bytes widen_char in
    let d : ltb (length bytes * 2) (length bytes * 2) ≡ false = ground arith in
    let all_units = take_all (length bytes) (map widen_char bytes) (omega arith) in
    rw (c, all, same_length, d, all_units, narrow_char-widen_chars default_char bytes h)
      (refl, refl)
