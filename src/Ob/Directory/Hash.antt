-- ===== src/Ob/Directory/Hash.antt =====
-- The hash of names in nboxkrnl/ob/obp.cpp against the comparison of names.
use nboxkrnl.Prelude.{
  ℕ, ◌+◌, ◌*◌, ◌%◌, ◌^◌, ◌<◌, ◌≡◌, ◌⊎◌, inl, inr, refl, ap, sym, ◌∙◌, arith, Bool, true, false,
  List, [], ◌∷◌, length, ◌==◌, Bool-cases, not, if◌then◌else◌,
}
use nboxkrnl.Rtl.Compare.{upper_char, equal_units, equal_string}
use nboxkrnl.Ob.Directory.{char_word, hash_loop, object_hash_index, is_same_name}

upper_char-mod : (c : ℕ) → upper_char c % 16 ≡ c % 16
unfolding upper_char
upper_char-mod c = ground arith

-- The last four bits of the hash only depend on those of the CHARs.
hash_step :
    (h g c d : ℕ)
    → h % 16 ≡ g % 16
    → c % 16 ≡ d % 16
    → (h * 32 % 2 ^ 32 + h + char_word c) % 2 ^ 32 % 16
      ≡ (g * 32 % 2 ^ 32 + g + char_word d) % 2 ^ 32 % 16
hash_step h g c d e f = ground arith

same_unit : (c d : ℕ) → (c == d ≡ true) ⊎ (upper_char c == upper_char d ≡ true) → c % 16 ≡ d % 16
same_unit c d (inl e) = ground arith
same_unit c d (inr e) =
    let u : upper_char c ≡ upper_char d = ground arith in
    sym (upper_char-mod c) ∙ ap (λ k. k % 16) u ∙ upper_char-mod d

-- Where the loop of the comparison accepts a first unit.
accepted :
    (c d : ℕ) (rest : Bool)
    → (if not (c == d) then (if not (upper_char c == upper_char d) then false else rest) else rest)
      ≡ true
    → ((c == d ≡ true) ⊎ (upper_char c == upper_char d ≡ true)) × (rest ≡ true)
accepted c d rest e = elim (Bool-cases (c == d)) [
  | inl t ↦ (inl t, ground arith)
  | inr t ↦ elim (Bool-cases (upper_char c == upper_char d)) [
    | inl u ↦ (inr u, ground arith)
    | inr u ↦ ground arith
  ]
]

hash_loop-equal_units :
    (xs ys : List ℕ) (g h : ℕ)
    → length xs ≡ length ys
    → equal_units upper_char (length xs) xs ys ≡ true
    → g % 16 ≡ h % 16
    → hash_loop g xs % 16 ≡ hash_loop h ys % 16
unfolding hash_loop equal_units
hash_loop-equal_units [] [] g h l e m = m
hash_loop-equal_units [] (y ∷ ys) g h l e m = ground arith
hash_loop-equal_units (x ∷ xs) [] g h l e m = ground arith
hash_loop-equal_units (x ∷ xs) (y ∷ ys) g h l e m =
    let (unit, later) = accepted x y (equal_units upper_char (length xs) xs ys) e in
    hash_loop-equal_units xs ys _ _ (omega arith) later (hash_step g h x y m (same_unit x y unit))

-- Names that `RtlEqualString` takes to be the same without regard to case are in the same bucket,
-- although the hash is of the CHARs as they are.
pub object_hash_index-is_same_name :
    (name other : List ℕ)
    → is_same_name name other ≡ true
    → object_hash_index name ≡ object_hash_index other
unfolding object_hash_index is_same_name equal_string
object_hash_index-is_same_name name other e =
    let l : length name ≡ length other = ground arith in
    let same = hash_loop-equal_units name other 5381 5381 l (ground arith) refl in
    ground (arith, same)

-- The index is within the table of 11 buckets, of which only four are in use.
object_hash_index-lt :
    (name : List ℕ)
    → (object_hash_index name < 11)
      × ((object_hash_index name ≡ 0)
          ⊎ (object_hash_index name ≡ 2)
          ⊎ (object_hash_index name ≡ 8)
          ⊎ (object_hash_index name ≡ 10))
unfolding object_hash_index
object_hash_index-lt name = ground arith
