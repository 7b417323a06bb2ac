-- ===== src/Rtl/Compare/Strings.antt =====
-- The comparisons of counted strings against each other: nboxkrnl/rtl/compare.cpp and
-- `RtlEqualString`.
use nboxkrnl.Prelude.{
  ℕ, zero, suc, ◌/◌, ◌^◌, ap, subst, sym, ◌∙◌, ◌<◌, ◌≡◌, ◌↔◌, arith, Bool, true, false, Option,
  none, some, List, [], ◌∷◌,
}
use nboxkrnl.Prelude.Int.{ℤ, pos, ◌-ℤ◌}
use nboxkrnl.Rtl.Strings.{CountedString}
use nboxkrnl.Rtl.Compare.{
  lower_char, upper_char, upcase_unicode_char, signed_char, first_difference, same, or_lengths,
  shorter, compare_string, compare_unicode_string, equal_units, equal_string, equal_unicode_string,
}

abbrev pub IsWithin : ℕ → List ℕ → Type 0
IsWithin bound [] = Unit
IsWithin bound (x ∷ xs) = (x < bound) × IsWithin bound xs

first_difference_nonzero :
    (fold : ℕ → ℕ) (value : ℕ → ℤ) (bound : ℕ)
    → ((x y : ℕ)
        → x < bound
        → y < bound
        → value (fold x) -ℤ value (fold y) ≡ pos 0
        → fold x ≡ fold y)
    → (n : ℕ) (xs ys : List ℕ) → IsWithin bound xs
    → IsWithin bound ys
    → first_difference fold value n xs ys ≡ some (pos 0)
    → ⊥
unfolding first_difference
first_difference_nonzero fold value bound apart zero xs ys p q e = ground arith
first_difference_nonzero fold value bound apart (suc n) [] ys p q e = ground arith
first_difference_nonzero fold value bound apart (suc n) (x ∷ xs) [] p q e = ground arith
first_difference_nonzero fold value bound apart (suc n) (x ∷ xs) (y ∷ ys) p q e =
    ground (arith, apart x y, first_difference_nonzero fold value bound apart n xs ys)

first_difference-equal_units :
    (fold : ℕ → ℕ) (value : ℕ → ℤ) (n : ℕ) (xs ys : List ℕ)
    → (first_difference fold value n xs ys ≡ none) ↔ (equal_units fold n xs ys ≡ true)
unfolding first_difference equal_units
first_difference-equal_units fold value zero xs ys = ground arith
first_difference-equal_units fold value (suc n) [] ys = ground arith
first_difference-equal_units fold value (suc n) (x ∷ xs) [] = ground arith
first_difference-equal_units fold value (suc n) (x ∷ xs) (y ∷ ys) =
    ground (arith, first_difference-equal_units fold value n xs ys)

upper_char-lower_char : (x : ℕ) → upper_char (lower_char x) ≡ upper_char x
unfolding lower_char upper_char
upper_char-lower_char x = ground arith

lower_char-upper_char : (x y : ℕ) → lower_char x ≡ lower_char y → upper_char x ≡ upper_char y
lower_char-upper_char x y e =
    sym (upper_char-lower_char x) ∙ ap upper_char e ∙ upper_char-lower_char y

equal_units-lower_char :
    (n : ℕ) (xs ys : List ℕ)
    → equal_units lower_char n xs ys ≡ true
    → equal_units upper_char n xs ys ≡ true
unfolding equal_units
equal_units-lower_char zero xs ys e = ground arith
equal_units-lower_char (suc n) [] ys e = ground arith
equal_units-lower_char (suc n) (x ∷ xs) [] e = ground arith
equal_units-lower_char (suc n) (x ∷ xs) (y ∷ ys) e =
    ground (arith, lower_char-upper_char x y, equal_units-lower_char n xs ys)

or_lengths_zero :
    (l1 l2 : ℕ) (d : Option ℤ)
    → (d ≡ some (pos 0) → ⊥)
    → (or_lengths l1 l2 d ≡ pos 0) ↔ ((l1 ≡ l2) × (d ≡ none))
or_lengths_zero l1 l2 none h = ground arith
or_lengths_zero l1 l2 (some d) h = (λ e. absurd (h (ap some e)), λ e. ground arith)

shorter_same : (l : ℕ) → shorter l l ≡ l
shorter_same l = ground arith

or_lengths-equal_units :
    (fold : ℕ → ℕ) (value : ℕ → ℤ) (bound : ℕ)
    → ((x y : ℕ)
        → x < bound
        → y < bound
        → value (fold x) -ℤ value (fold y) ≡ pos 0
        → fold x ≡ fold y)
    → (l1 l2 : ℕ) (units : ℕ → ℕ) (xs ys : List ℕ) → IsWithin bound xs
    → IsWithin bound ys
    → (or_lengths l1 l2 (first_difference fold value (units (shorter l1 l2)) xs ys) ≡ pos 0)
      ↔ ((l1 ≡ l2) × (equal_units fold (units l1) xs ys ≡ true))
or_lengths-equal_units fold value bound apart l1 l2 units xs ys p q =
    let n = units (shorter l1 l2) in
    let (zero_only, only_zero) =
      or_lengths_zero l1 l2 (first_difference fold value n xs ys)
        (first_difference_nonzero fold value bound apart n xs ys p q) in
    let same_n : l1 ≡ l2 → units (shorter l1 l2) ≡ units l1 =
      λ e. ap units (subst (λ k. shorter l1 k ≡ l1) e (shorter_same l1)) in
    let (forth, back) = first_difference-equal_units fold value n xs ys in
    (
      λ e.
          let (l, d) = zero_only e in
          (l, subst (λ k. equal_units fold k xs ys ≡ true) (same_n l) (forth d)),
      λ e.
          only_zero
            (e.0, back (subst (λ k. equal_units fold k xs ys ≡ true) (sym (same_n e.0)) e.1)),
    )

upcase_apart :
    (x y : ℕ)
    → x < 2 ^ 16
    → y < 2 ^ 16
    → pos (upcase_unicode_char x) -ℤ pos (upcase_unicode_char y) ≡ pos 0
    → upcase_unicode_char x ≡ upcase_unicode_char y
upcase_apart x y p q e = ground arith

pos_apart : (bound x y : ℕ) → x < bound → y < bound → pos x -ℤ pos y ≡ pos 0 → x ≡ y
pos_apart bound x y p q e = ground arith

signed_char_apart : (x y : ℕ) → x < 256 → y < 256 → signed_char x -ℤ signed_char y ≡ pos 0 → x ≡ y
signed_char_apart x y p q e = ground arith

lower_apart :
    (x y : ℕ)
    → x < 256
    → y < 256
    → pos (lower_char x) -ℤ pos (lower_char y) ≡ pos 0
    → lower_char x ≡ lower_char y
lower_apart x y p q e = ground arith

-- On buffers of WCHARs, `RtlCompareUnicodeString` returns 0 exactly where `RtlEqualUnicodeString`
-- returns TRUE, with and without regard to case.
pub compare_unicode_string-equal_unicode_string :
    (s t : CountedString) (case_insensitive : Bool)
    → IsWithin (2 ^ 16) s.buffer
    → IsWithin (2 ^ 16) t.buffer
    → (compare_unicode_string s t case_insensitive ≡ pos 0)
      ↔ (equal_unicode_string s t case_insensitive ≡ true)
unfolding compare_unicode_string equal_unicode_string
compare_unicode_string-equal_unicode_string s t true p q =
    let h =
      or_lengths-equal_units upcase_unicode_char pos (2 ^ 16) upcase_apart s.length t.length
        (λ n. n / 2) s.buffer t.buffer p q in
    ground (arith, h)
compare_unicode_string-equal_unicode_string s t false p q =
    let h =
      or_lengths-equal_units same pos (2 ^ 16) (pos_apart (2 ^ 16)) s.length t.length (λ n. n / 2)
        s.buffer t.buffer p q in
    ground (arith, h)

-- On buffers of CHARs, where `RtlCompareString` returns 0, `RtlEqualString` returns TRUE, with and
-- without regard to case. With regard to case, the converse holds too.
compare_string-equal_string :
    (s t : CountedString)
    → IsWithin (2 ^ 8) s.buffer
    → IsWithin (2 ^ 8) t.buffer
    → (compare_string s t true ≡ pos 0 → equal_string s t true ≡ true)
      × ((compare_string s t false ≡ pos 0) ↔ (equal_string s t false ≡ true))
unfolding compare_string equal_string
compare_string-equal_string s t p q =
    let h =
      or_lengths-equal_units lower_char pos (2 ^ 8) lower_apart s.length t.length (λ n. n) s.buffer
        t.buffer p q in
    let i =
      or_lengths-equal_units same signed_char (2 ^ 8) signed_char_apart s.length t.length (λ n. n)
        s.buffer t.buffer p q in
    (
      (λ e.
          let (l, d) = h.0 e in
          let d' = equal_units-lower_char s.length s.buffer t.buffer d in ground (arith, l, d')),
      ground (arith, i),
    )
