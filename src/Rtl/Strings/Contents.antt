-- ===== src/Rtl/Strings/Contents.antt =====
-- What the operations of nboxkrnl/rtl/strings.cpp do to the contents of counted strings.
use nboxkrnl.Prelude.{
  ℕ, zero, suc, ◌+◌, ◌*◌, ◌/◌, ◌%◌, ◌^◌, ◌≤◌, ◌<◌, ◌≡◌, ◌⊎◌, inl, inr, refl, ap, sym, ◌∙◌, arith,
  List, [], ◌∷◌, ◌++◌, Bool-cases, length, take, length-take, append-nil, ltb,
}
use nboxkrnl.Rtl.Status.{success, buffer_too_small}
use nboxkrnl.Rtl.Strings.{CountedString, overwrite, append_string, append_unicode_string, terminate}

pub take-overwrite :
    (ms : List ℕ) (i : ℕ) (xs : List ℕ) (n : ℕ)
    → n ≡ i + length xs
    → n ≤ length ms
    → take n (overwrite ms i xs) ≡ take i ms ++ xs
unfolding overwrite
take-overwrite [] zero [] n e h = ground arith
take-overwrite [] zero (x ∷ xs) n e h = ground arith
take-overwrite [] (suc i) xs n e h = ground arith
take-overwrite (m ∷ ms) zero [] n e h = ground arith
take-overwrite (m ∷ ms) zero (x ∷ xs) zero e h = ground arith
take-overwrite (m ∷ ms) zero (x ∷ xs) (suc n) e h =
    ap (◌∷◌ x) (take-overwrite ms zero xs n (omega arith) (omega arith))
take-overwrite (m ∷ ms) (suc i) xs zero e h = ground arith
take-overwrite (m ∷ ms) (suc i) xs (suc n) e h =
    ap (◌∷◌ m) (take-overwrite ms i xs n (omega arith) (omega arith))

take-overwrite_below : (ms : List ℕ) (i : ℕ) (xs : List ℕ) → take i (overwrite ms i xs) ≡ take i ms
unfolding overwrite
take-overwrite_below [] i xs = refl
take-overwrite_below (m ∷ ms) zero xs = refl
take-overwrite_below (m ∷ ms) (suc i) xs = ap (◌∷◌ m) (take-overwrite_below ms i xs)

pub length-overwrite : (ms : List ℕ) (i : ℕ) (xs : List ℕ) → length (overwrite ms i xs) ≡ length ms
unfolding overwrite
length-overwrite [] i xs = refl
length-overwrite (m ∷ ms) zero [] = refl
length-overwrite (m ∷ ms) zero (x ∷ xs) = ap suc (length-overwrite ms zero xs)
length-overwrite (m ∷ ms) (suc i) xs = ap suc (length-overwrite ms i xs)

-- A string of CHARs: the lengths are those of a USHORT, and the buffer holds the maximal length.
abbrev pub IsAnsi : CountedString → Type 0
IsAnsi s =
    (s.length ≤ s.maximum_length)
    × (s.maximum_length < 2 ^ 16)
    × (s.maximum_length ≤ length s.buffer)

-- A string of WCHARs.
abbrev pub IsUnicode : CountedString → Type 0
IsUnicode s =
    (s.length ≤ s.maximum_length)
    × (s.length % 2 ≡ 0)
    × (s.maximum_length < 2 ^ 16)
    × (s.maximum_length ≤ length s.buffer * 2)

abbrev pub contents : CountedString → List ℕ
contents s = take s.length s.buffer

abbrev pub unicode_contents : CountedString → List ℕ
unicode_contents s = take (s.length / 2) s.buffer

pub length-contents : (n : ℕ) (xs : List ℕ) → n ≤ length xs → length (take n xs) ≡ n
length-contents n xs h = omega (arith, length-take n xs)

append-no_units : (xs : List ℕ) (n : ℕ) (ys : List ℕ) → n ≡ 0 → xs ≡ xs ++ take n ys
append-no_units xs n ys e = sym (append-nil xs) ∙ ap (λ k. xs ++ take k ys) (sym e)

-- `RtlAppendStringToString` succeeds exactly where both contents fit the destination. It then appends
-- the contents of the source, and otherwise changes nothing.
append_string-contents :
    (d s : CountedString)
    → IsAnsi d
    → IsAnsi s
    → let (status, d') = append_string d s in
      IsAnsi d'
      × ((s.length + d.length ≤ d.maximum_length)
            × (status ≡ success)
            × (contents d' ≡ contents d ++ contents s)
          ⊎ (d.maximum_length < s.length + d.length) × (status ≡ buffer_too_small) × (d' ≡ d))
unfolding append_string
append_string-contents d s p q = elim (Bool-cases (ltb 0 s.length)) [
  | inl e ↦ elim (Bool-cases (ltb d.maximum_length (s.length + d.length))) [
    | inl f ↦ rw (e, append_string) (rw (f, append_string) (ground arith))
    | inr f ↦
        let taken = length-contents s.length s.buffer (omega arith) in
        let kept = length-overwrite d.buffer d.length (take s.length s.buffer) in
        let wrap : (d.length + s.length) % 2 ^ 16 ≡ d.length + s.length = ground arith in
        let copied =
          take-overwrite d.buffer d.length (take s.length s.buffer) (d.length + s.length)
            (omega arith) (ground arith) in
        rw (e, append_string) (rw (f, append_string) (rw wrap (ground arith)))
  ]
  | inr e ↦
      let none_left : s.length ≡ 0 = ground arith in
      rw (e, append_string)
        (p, inl (ground arith, refl, append-no_units (contents d) s.length s.buffer none_left))
]

-- `RtlAppendUnicodeStringToString` succeeds exactly where both contents fit the destination. It then
-- appends the contents of the source, and puts a NUL behind them if there is room; otherwise it
-- changes nothing.
pub append_unicode_string-unicode_contents :
    (d s : CountedString)
    → IsUnicode d
    → IsUnicode s
    → let (status, d') = append_unicode_string d s in
      IsUnicode d'
      × ((s.length + d.length ≤ d.maximum_length)
            × (status ≡ success)
            × (unicode_contents d' ≡ unicode_contents d ++ unicode_contents s)
          ⊎ (d.maximum_length < s.length + d.length) × (status ≡ buffer_too_small) × (d' ≡ d))
unfolding append_unicode_string terminate
append_unicode_string-unicode_contents d s p q = elim (Bool-cases (ltb 0 s.length)) [
  | inl e ↦ elim (Bool-cases (ltb d.maximum_length (s.length + d.length))) [
    | inl f ↦ rw (e, append_unicode_string) (rw (f, append_unicode_string) (ground arith))
    | inr f ↦
        let units = take (s.length / 2) s.buffer in
        let taken = length-contents (s.length / 2) s.buffer (omega arith) in
        let kept = length-overwrite d.buffer (d.length / 2) units in
        let wrap : (d.length + s.length) % 2 ^ 16 ≡ d.length + s.length = ground arith in
        let copied =
          take-overwrite d.buffer (d.length / 2) units ((d.length + s.length) / 2) (omega arith)
            (ground arith) in
        let copy = overwrite d.buffer (d.length / 2) units in
        let below = take-overwrite_below copy ((d.length + s.length) / 2) (0 ∷ []) in
        let kept_too = length-overwrite copy ((d.length + s.length) / 2) (0 ∷ []) in
        elim (Bool-cases (ltb (d.length + s.length) d.maximum_length)) [
          | inl g ↦
              rw (e, append_unicode_string)
                (rw (f, append_unicode_string) (rw wrap (rw (g, terminate) (ground arith))))
          | inr g ↦
              rw (e, append_unicode_string)
                (rw (f, append_unicode_string) (rw wrap (rw (g, terminate) (ground arith))))
        ]
  ]
  | inr e ↦
      let none_left : s.length / 2 ≡ 0 = ground arith in
      rw (e, append_unicode_string)
        (
          p,
          inl (
            ground arith,
            refl,
            append-no_units (unicode_contents d) (s.length / 2) s.buffer none_left,
          ),
        )
]
