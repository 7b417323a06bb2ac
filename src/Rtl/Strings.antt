-- ===== src/Rtl/Strings.antt =====
-- The counted strings of nboxkrnl/rtl/strings.cpp. `length` and `maximum_length` are in bytes, and the
-- buffer is the list of the CHARs or WCHARs that the pointer gives access to. The lengths of strings of
-- WCHARs are even. Source and destination are apart in memory. A write behind the list changes nothing;
-- none happens where the buffer holds `maximum_length` bytes.
pub mod Contents
pub mod Texts
pub mod Copies
pub mod Multibyte
mod Examples
use nboxkrnl.Prelude.{
  ℕ, zero, suc, ◌+◌, ◌-◌, ◌*◌, ◌/◌, ◌%◌, ◌^◌, Bool, true, false, Option, none, some, List, [], ◌∷◌,
  map, length, take, ltb, leb, ◌==◌, ◌&&◌, not, if◌then◌else◌, ◌++◌,
}
use nboxkrnl.Rtl.Status.{Status, success, buffer_overflow, buffer_too_small, no_memory}

pub record CountedString : Type 0 where
  pub length : ℕ
  pub maximum_length : ℕ
  pub buffer : List ℕ

-- A copy of units to an index of a buffer.
unfoldable pub overwrite : List ℕ → ℕ → List ℕ → List ℕ
overwrite [] i xs = []
overwrite (m ∷ ms) zero [] = m ∷ ms
overwrite (m ∷ ms) zero (x ∷ xs) = x ∷ overwrite ms zero xs
overwrite (m ∷ ms) (suc i) xs = m ∷ overwrite ms i xs

-- A text that ends in a NUL, whose units are given without the NUL.
unfoldable pub init_ansi_string : List ℕ → CountedString
init_ansi_string text =
    let len = length text % 2 ^ 16 in
    record { length = len; maximum_length = (len + 1) % 2 ^ 16; buffer = text ++ (0 ∷ []) }

unfoldable pub init_unicode_string : List ℕ → CountedString
init_unicode_string text =
    let len = length text % 2 ^ 16 * 2 % 2 ^ 16 in
    record { length = len; maximum_length = (len + 2) % 2 ^ 16; buffer = text ++ (0 ∷ []) }

unfoldable pub append_string : CountedString → CountedString → Status × CountedString
append_string d s =
    if not (ltb 0 s.length)
    then (success, d)
    else if ltb d.maximum_length (s.length + d.length)
    then (buffer_too_small, d)
    else (
      success,
      record d {
        buffer = overwrite d.buffer d.length (take s.length s.buffer);
        length = (d.length + s.length) % 2 ^ 16;
      },
    )

-- The NUL that `RtlAppendUnicodeStringToString` writes if there is room for it.
unfoldable pub terminate : CountedString → CountedString
terminate d =
    if ltb d.length d.maximum_length
    then record d { buffer = overwrite d.buffer (d.length / 2) (0 ∷ []) }
    else d

unfoldable pub append_unicode_string : CountedString → CountedString → Status × CountedString
append_unicode_string d s =
    if not (ltb 0 s.length)
    then (success, d)
    else if ltb d.maximum_length (s.length + d.length)
    then (buffer_too_small, d)
    else (
      success,
      terminate (record d {
        buffer = overwrite d.buffer (d.length / 2) (take (s.length / 2) s.buffer);
        length = (d.length + s.length) % 2 ^ 16;
      }),
    )

-- `RtlAppendUnicodeToString`, for a pointer that may be NULL.
unfoldable pub append_unicode : CountedString → Option (List ℕ) → Status × CountedString
append_unicode d none = (success, d)
append_unicode d (some text) = append_unicode_string d (init_unicode_string text)

abbrev pub clipped : CountedString → CountedString → ℕ
clipped d s = if ltb d.maximum_length s.length then d.maximum_length else s.length

unfoldable pub copy_string : CountedString → Option CountedString → CountedString
copy_string d none = record d { length = 0 }
copy_string d (some s) = record d {
  length = clipped d s;
  buffer = overwrite d.buffer 0 (take (clipped d s) s.buffer);
}

unfoldable pub copy_unicode_string : CountedString → Option CountedString → CountedString
copy_unicode_string d none = record d { length = 0 }
copy_unicode_string d (some s) = record d {
  length = clipped d s;
  buffer = overwrite d.buffer 0 (take (clipped d s / 2) s.buffer);
}

-- `RtlUpperString`, for `RtlUpperChar` as `fold`.
unfoldable pub fold_string : (ℕ → ℕ) → CountedString → CountedString → CountedString
fold_string fold d s = record d {
  length = clipped d s;
  buffer = overwrite d.buffer 0 (map fold (take (clipped d s) s.buffer));
}

-- The loop and the end of the two case conversions of strings of WCHARs.
unfoldable pub fold_unicode : (ℕ → ℕ) → CountedString → CountedString → Status × CountedString
fold_unicode fold d s = (
  success,
  record d {
    length = s.length;
    buffer = overwrite d.buffer 0 (map fold (take (s.length / 2) s.buffer));
  },
)

-- `RtlUpcaseUnicodeString` and `RtlDowncaseUnicodeString`. `pool` is the outcome of
-- `ExAllocatePoolWithTag`: NULL, or the memory.
unfoldable pub fold_unicode_string :
    (ℕ → ℕ) → CountedString → CountedString → Bool → Option (List ℕ) → Status × CountedString
fold_unicode_string fold d s false pool =
    if ltb d.maximum_length s.length then (buffer_overflow, d) else fold_unicode fold d s
fold_unicode_string fold d s true none =
    (no_memory, record d { maximum_length = s.length; buffer = [] })
fold_unicode_string fold d s true (some memory) =
    fold_unicode fold (record d { maximum_length = s.length; buffer = memory }) s

-- `(WCHAR)` of a CHAR, which is signed.
unfoldable pub widen_char : ℕ → ℕ
widen_char c = if ltb c 128 then c else c + (2 ^ 16 - 2 ^ 8)

-- `RtlMultiByteToUnicodeN` for a destination of `room` bytes: what it writes, and the number of bytes.
unfoldable pub multi_byte_to_unicode : ℕ → List ℕ → List ℕ × ℕ
multi_byte_to_unicode room bytes =
    let chars = if ltb (room / 2) (length bytes) then room / 2 else length bytes in
    (map widen_char (take chars bytes), chars * 2)

-- One round of the loop of `RtlUnicodeToMultiByteN`, which looks at the high byte.
unfoldable pub narrow_char : ℕ → ℕ → ℕ
narrow_char default_char c = if c / 2 ^ 8 == 0 then c % 2 ^ 8 else default_char

-- `RtlUnicodeToMultiByteN` for a destination of `room` bytes: what it writes, and the number of bytes.
-- The value of `NlsOemDefaultChar` depends on the encoding of the source file.
unfoldable pub unicode_to_multi_byte : ℕ → ℕ → List ℕ → List ℕ × ℕ
unicode_to_multi_byte default_char room units =
    let size = if ltb (room * 2) (length units * 2) then room else length units in
    (map (narrow_char default_char) (take size units), size)
