-- ===== src/Rtl/Strings/Copies.antt =====
-- The copies and the case conversions of counted strings of WCHARs in nboxkrnl/rtl/strings.cpp.
use nboxkrnl.Prelude.{
  ℕ, ◌*◌, ◌/◌, ◌%◌, ◌≤◌, ◌<◌, ◌≡◌, ◌⊎◌, inl, inr, refl, ap, ◌∙◌, arith, true, false, none, some,
  List, Bool-cases, length, take, length-map, map, ltb, min,
}
use nboxkrnl.Rtl.Status.{success, buffer_overflow, no_memory}
use nboxkrnl.Rtl.Strings.{
  CountedString, overwrite, copy_unicode_string, clipped, fold_unicode, fold_unicode_string,
}
use nboxkrnl.Rtl.Strings.Contents.{
  IsUnicode, unicode_contents, take-overwrite, length-overwrite, length-contents,
}

-- A copy to the front of a buffer that is long enough.
take-overwrite_front :
    (ms xs : List ℕ) (n : ℕ) → length xs ≡ n → n ≤ length ms → take n (overwrite ms 0 xs) ≡ xs
take-overwrite_front ms xs n e h = take-overwrite ms 0 xs n (omega arith) h

-- `RtlCopyUnicodeString` of a string, to a destination of an even size, leaves as much of its contents
-- as the destination has room for.
copy_unicode_string-unicode_contents :
    (d s : CountedString)
    → IsUnicode d
    → IsUnicode s
    → d.maximum_length % 2 ≡ 0
    → let d' = copy_unicode_string d (some s) in
      IsUnicode d'
      × (d'.length ≡ min d.maximum_length s.length)
      × (unicode_contents d' ≡ take (min d.maximum_length s.length / 2) s.buffer)
unfolding copy_unicode_string
copy_unicode_string-unicode_contents d s p q even =
    let n = clipped d s / 2 in
    let c : clipped d s ≡ min d.maximum_length s.length = ground arith in
    let fits : n ≤ length d.buffer = ground arith in
    let given : n ≤ length s.buffer = ground arith in
    let taken = length-contents n s.buffer given in
    let kept = length-overwrite d.buffer 0 (take n s.buffer) in
    let copied = take-overwrite_front d.buffer (take n s.buffer) n taken fits in
    (ground arith, c, copied ∙ ap (λ k. take (k / 2) s.buffer) c)

fold_unicode-contents :
    (fold : ℕ → ℕ) (d s : CountedString)
    → s.length / 2 ≤ length d.buffer
    → s.length / 2 ≤ length s.buffer
    → let (status, d') = fold_unicode fold d s in
      (status ≡ success)
      × (d'.length ≡ s.length)
      × (unicode_contents d' ≡ map fold (unicode_contents s))
unfolding fold_unicode
fold_unicode-contents fold d s p q =
    let units = take (s.length / 2) s.buffer in
    let folded = length-map units fold in
    let taken = length-contents (s.length / 2) s.buffer q in
    (refl, refl, take-overwrite_front d.buffer (map fold units) (s.length / 2) (folded ∙ taken) p)

-- The case conversions convert every unit of the source. Without allocation they do so exactly where
-- the source fits the destination, which is unchanged otherwise. With allocation they do so where
-- there is memory, and otherwise report that there is none.
fold_unicode_string-unicode_contents :
    (fold : ℕ → ℕ) (d s : CountedString) (memory : List ℕ)
    → IsUnicode d
    → IsUnicode s
    → s.length ≤ length memory * 2
    → let (status, d') = fold_unicode_string fold d s false none in
      let (allocated_status, a) = fold_unicode_string fold d s true (some memory) in
      ((s.length ≤ d.maximum_length)
          × (status ≡ success)
          × (unicode_contents d' ≡ map fold (unicode_contents s))
        ⊎ (d.maximum_length < s.length) × (status ≡ buffer_overflow) × (d' ≡ d))
      × (allocated_status ≡ success)
      × (unicode_contents a ≡ map fold (unicode_contents s))
      × ((fold_unicode_string fold d s true none).0 ≡ no_memory)
unfolding fold_unicode_string
fold_unicode_string-unicode_contents fold d s memory p q m =
    let given : s.length / 2 ≤ length s.buffer = omega arith in
    let big =
      fold_unicode-contents fold (record d { maximum_length = s.length; buffer = memory }) s
        (omega arith) given in
    (
      elim (Bool-cases (ltb d.maximum_length s.length)) [
        | inl e ↦ rw (e, fold_unicode_string) (inr (ground arith, refl, refl))
        | inr e ↦
            let here = fold_unicode-contents fold d s (ground arith) given in
            rw (e, fold_unicode_string) (inl (ground arith, here.0, here.2))
      ],
      big.0,
      big.2,
      refl,
    )
