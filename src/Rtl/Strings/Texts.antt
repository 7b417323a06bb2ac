-- ===== src/Rtl/Strings/Texts.antt =====
-- Counted strings from texts that end in a NUL: `RtlInitAnsiString`, `RtlInitUnicodeString` and
-- `RtlAppendUnicodeToString` of nboxkrnl/rtl/strings.cpp.
use nboxkrnl.Prelude.{
  ℕ, zero, suc, ◌+◌, ◌-◌, ◌*◌, ◌/◌, ◌%◌, ◌^◌, ◌≤◌, ◌<◌, ◌≡◌, ◌⊎◌, inl, inr, refl, ap, ◌∙◌, arith,
  some, List, [], ◌∷◌, ◌++◌, length, length-append, take,
}
use nboxkrnl.Rtl.Status.{success, buffer_too_small}
use nboxkrnl.Rtl.Strings.{CountedString, init_ansi_string, init_unicode_string, append_unicode}
use nboxkrnl.Rtl.Strings.Contents.{
  IsAnsi, IsUnicode, contents, unicode_contents, append_unicode_string-unicode_contents,
}

take-append_left : (n : ℕ) (xs ys : List ℕ) → n ≡ length xs → take n (xs ++ ys) ≡ xs
take-append_left zero [] ys e = refl
take-append_left zero (x ∷ xs) ys e = ground arith
take-append_left (suc n) [] ys e = ground arith
take-append_left (suc n) (x ∷ xs) ys e = ap (◌∷◌ x) (take-append_left n xs ys (omega arith))

-- The string that `RtlInitAnsiString` makes of a text of fewer than 2 ^ 16 - 1 CHARs is well-formed
-- and has the text as its contents.
init_ansi_string-contents :
    (text : List ℕ)
    → length text < 2 ^ 16 - 1
    → IsAnsi (init_ansi_string text) × (contents (init_ansi_string text) ≡ text)
unfolding init_ansi_string
init_ansi_string-contents text h =
    let n : length text % 2 ^ 16 ≡ length text = omega arith in
    let held = length-append text (0 ∷ []) in
    (ground arith, take-append_left (length text % 2 ^ 16) text (0 ∷ []) n)

-- The string that `RtlInitUnicodeString` makes of a text of fewer than 2 ^ 15 - 1 WCHARs is well-formed
-- and has the text as its contents.
init_unicode_string-unicode_contents :
    (text : List ℕ)
    → length text < 2 ^ 15 - 1
    → IsUnicode (init_unicode_string text) × (unicode_contents (init_unicode_string text) ≡ text)
unfolding init_unicode_string
init_unicode_string-unicode_contents text h =
    let n : length text % 2 ^ 16 * 2 % 2 ^ 16 ≡ length text * 2 = omega arith in
    let held = length-append text (0 ∷ []) in
    (
      ground arith,
      take-append_left (length text % 2 ^ 16 * 2 % 2 ^ 16 / 2) text (0 ∷ []) (omega arith),
    )

-- `RtlAppendUnicodeToString` of a text of fewer than 2 ^ 15 - 1 WCHARs succeeds exactly where the text
-- fits the destination. It then appends the text, and otherwise changes nothing.
append_unicode-unicode_contents :
    (d : CountedString) (text : List ℕ)
    → IsUnicode d
    → length text < 2 ^ 15 - 1
    → let (status, d') = append_unicode d (some text) in
      IsUnicode d'
      × ((length text * 2 + d.length ≤ d.maximum_length)
            × (status ≡ success)
            × (unicode_contents d' ≡ unicode_contents d ++ text)
          ⊎ (d.maximum_length < length text * 2 + d.length)
            × (status ≡ buffer_too_small)
            × (d' ≡ d))
unfolding append_unicode
append_unicode-unicode_contents d text p h =
    let (made, same) = init_unicode_string-unicode_contents text h in
    let n : (init_unicode_string text).length ≡ length text * 2 =
      unfold init_unicode_string in omega arith in
    let (valid, outcome) =
      append_unicode_string-unicode_contents d (init_unicode_string text) p made in
    (
      valid,
      elim outcome [
        | inl (fits, status, grown) ↦
            inl (omega arith, status, grown ∙ ap (◌++◌ (unicode_contents d)) same)
        | inr (large, status, kept) ↦ inr (omega arith, status, kept)
      ],
    )
