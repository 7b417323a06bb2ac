-- ===== src/Rtl/Error/Mapping.antt =====
-- The search of error.cpp for a status, on tables that follow each other in the order of their ranges.
use nboxkrnl.Prelude.{
  ℕ, zero, suc, ◌+◌, ◌-◌, ◌*◌, ◌/◌, ◌%◌, ◌^◌, ◌≤◌, ◌<◌, ◌≡◌, ◌≢◌, refl, ap, sym, ◌∙◌, subst, arith,
  true, false, some, List, [], ◌∷◌, ◌++◌, ◌||◌, ltb, ◌==◌, if◌then◌else◌, ◌⊎◌, ◌↔◌, inl, inr,
  get_elem?, length, some_inj, Bool-cases,
}
use nboxkrnl.Rtl.Error.Tables.{
  table_00000102, table_40000002, table_40000370, table_40020056, table_400200af, table_80000001,
  table_80000288, table_80090300, table_80092010, table_80096004, table_80130001, table_c0020001,
  table_c0030001, table_c0030059, table_c00a0001, table_c0130001, table_c0150001,
}
use nboxkrnl.Rtl.Error.LongTables.{table_c0000001, table_c0000202}
use nboxkrnl.Rtl.Error.Lookup.{
  ErrorTable, error_table, find_mapping, known_or_default, special_case, normalize,
  nt_status_to_dos_error, is_customer, error_mr_mid_not_found,
}

-- A table has an entry for each status of its range, and the range is within one severity that is not
-- reserved for customers.
record IsWellFormed (t : ErrorTable) : Type 0 where
  sized : t.end ≡ t.start + length t.table
  positive : 0 < t.start
  severity : t.start / 2 ^ 28 % 4 ≡ 0
  within : t.end ≤ (t.start / 2 ^ 28) * 2 ^ 28 + 2 ^ 28

abbrev AreInOrder : ℕ → List ErrorTable → Type 0
AreInOrder lo [] = Unit {0}
AreInOrder lo (t ∷ ts) = (lo ≤ t.start) × IsWellFormed t × AreInOrder t.end ts

error_table-AreInOrder : AreInOrder 0 error_table
unfolding error_table table_00000102 table_40000002 table_40000370 table_40020056 table_400200af
    table_80000001 table_80000288 table_80090300 table_80092010 table_80096004 table_80130001
    table_c0020001 table_c0030001 table_c0030059 table_c00a0001 table_c0130001 table_c0150001
    table_c0000001 table_c0000202
error_table-AreInOrder = omega arith

AreInOrder-from :
    (lo : ℕ) (before : List ErrorTable) (t : ErrorTable) (after : List ErrorTable)
    → AreInOrder lo (before ++ (t ∷ after))
    → (lo ≤ t.start) × IsWellFormed t
AreInOrder-from lo [] t after o = (o.0, o.1)
AreInOrder-from lo (u ∷ us) t after o =
    let (above, plain) = AreInOrder-from u.end us t after o.2 in
    let sized = o.1.sized in (omega arith, plain)

get_elem?-lt : {A : Type 0} (xs : List A) (i : ℕ) {a : A} → get_elem? xs i ≡ some a → i < length xs
get_elem?-lt [] i e = cc
get_elem?-lt (x ∷ xs) zero e = omega arith
get_elem?-lt (x ∷ xs) (suc i) e = omega (arith, get_elem?-lt xs i e)

get_elem?_total :
    {A : Type 0} (xs : List A) (i : ℕ) → i < length xs → (a : A) × (get_elem? xs i ≡ some a)
get_elem?_total [] i h = elim h [ ]
get_elem?_total (x ∷ xs) zero h = (x, refl)
get_elem?_total (x ∷ xs) (suc i) h = get_elem?_total xs i (omega arith)

find_mapping-row :
    (lo : ℕ) (before : List ErrorTable) (t : ErrorTable) (after : List ErrorTable) (i : ℕ)
    → AreInOrder lo (before ++ (t ∷ after))
    → i < length t.table
    → find_mapping (t.start + i) (before ++ (t ∷ after)) ≡ known_or_default (get_elem? t.table i)
unfolding find_mapping
find_mapping-row lo [] t after i o h =
    let sized = o.1.sized in
    let first : ltb (t.start + i) t.start ≡ false = ground arith in
    let second : ltb (t.start + i) t.end ≡ true = ground arith in
    let index : t.start + i - t.start ≡ i = omega arith in
    rw (first, find_mapping) (rw second (rw index refl))
find_mapping-row lo (u ∷ us) t after i o h =
    let sized = o.1.sized in
    let above = (AreInOrder-from u.end us t after o.2).0 in
    let first : ltb (t.start + i) u.start ≡ false = ground arith in
    let second : ltb (t.start + i) u.end ≡ false = ground arith in
    rw (first, find_mapping) (rw second (find_mapping-row u.end us t after i o.2 h))

-- A severity that is not reserved is left as it is.
normalize_plain :
    (status : ℕ)
    → status / 2 ^ 28 % 4 ≡ 0
    → (is_customer status ≡ false) × (normalize status ≡ status)
unfolding normalize
normalize_plain status h = (
  ground (arith, clear),
  let other : (status / 2 ^ 28 == 0xd) ≡ false = ground (arith, not_13) in rw other refl,
)
  where
    clear : status / 2 ^ 29 % 2 ≡ 0
    clear = omega arith

    not_13 : status / 2 ^ 28 ≢ 0xd
    not_13 = omega arith

-- Every entry of every table is used: the status of the entry is mapped to it, or to ERROR_MR_MID_NOT_FOUND
-- where the entry is 0.
pub nt_status_to_dos_error-row :
    (before : List ErrorTable) (t : ErrorTable) (after : List ErrorTable) (i code : ℕ)
    → error_table ≡ before ++ (t ∷ after)
    → get_elem? t.table i ≡ some code
    → nt_status_to_dos_error (t.start + i)
      ≡ some (if code == 0 then error_mr_mid_not_found else code)
unfolding nt_status_to_dos_error
nt_status_to_dos_error-row before t after i code e f =
    let o = subst (AreInOrder 0) e error_table-AreInOrder in
    let (above, plain) = AreInOrder-from 0 before t after o in
    let h = get_elem?-lt t.table i f in
    let sized = plain.sized in
    let positive = plain.positive in
    let within = plain.within in
    let same : (t.start + i) / 2 ^ 28 ≡ t.start / 2 ^ 28 = omega arith in
    let (ours, kept) = normalize_plain (t.start + i) (ap (λ x. x % 4) same ∙ plain.severity) in
    let nonzero : (t.start + i == 0) ≡ false = ground arith in
    rw nonzero
      (rw ours (rw kept (rw e (find_mapping-row 0 before t after i o h ∙ ap known_or_default f))))

special_case-eq_zero :
    (status : ℕ)
    → status < 2 ^ 32
    → special_case status ≡ 0
    → (status ≡ 0xc0010000) ⊎ (status ≡ 0x80070000)
unfolding special_case
special_case-eq_zero status b h = ground arith

-- The search reads an entry or comes to the special cases, and an entry gives no 0.
find_mapping_total :
    (lo status : ℕ) (ts : List ErrorTable)
    → AreInOrder lo ts
    → (code : ℕ) × (find_mapping status ts ≡ some code) × (code ≡ 0 → special_case status ≡ 0)
unfolding find_mapping
find_mapping_total lo status [] o = (special_case status, refl, λ e. e)
find_mapping_total lo status (t ∷ ts) o = elim (Bool-cases (ltb status t.start)) [
  | inl p ↦ (special_case status, rw p refl, λ e. e)
  | inr p ↦ elim (Bool-cases (ltb status t.end)) [
    | inl q ↦
        let sized = o.1.sized in
        let (ret, e) = get_elem?_total t.table (status - t.start) (ground arith) in
        (
          if ret == 0 then error_mr_mid_not_found else ret,
          rw (p, find_mapping) (rw q (rw e refl)),
          λ z. absurd (ground arith),
        )
    | inr q ↦
        let (code, e, z) = find_mapping_total t.end status ts o.2 in
        (code, rw (p, find_mapping) (rw q e), z)
  ]
]

abbrev IsMappedToZero : ℕ → Type 0
IsMappedToZero status =
    (status ≡ 0) ⊎ (status ≡ 0xc0010000) ⊎ (status ≡ 0xd0010000) ⊎ (status ≡ 0x80070000)

nt_status_to_dos_error_total :
    (status : ℕ)
    → status < 2 ^ 32
    → (code : ℕ) × (nt_status_to_dos_error status ≡ some code) × (code ≡ 0 → IsMappedToZero status)
unfolding nt_status_to_dos_error
nt_status_to_dos_error_total status b = elim (Bool-cases (status == 0 || is_customer status)) [
  | inl p ↦ (status, rw p refl, λ z. inl z)
  | inr p ↦
      let (code, e, zero_only) =
        find_mapping_total 0 (normalize status) error_table error_table-AreInOrder in
      (
        code,
        rw p e,
        λ z.
            normalize-eq status b
              (special_case-eq_zero (normalize status) (normalize-lt status b) (zero_only z)),
      )
]
  where
    normalize-lt : (x : ℕ) → x < 2 ^ 32 → normalize x < 2 ^ 32
    normalize-lt x h = unfold normalize in (ground arith)

    normalize-eq :
        (x : ℕ)
        → x < 2 ^ 32
        → (normalize x ≡ 0xc0010000) ⊎ (normalize x ≡ 0x80070000)
        → IsMappedToZero x
    normalize-eq x h e = unfold normalize in (ground arith)

zero_codes :
    (nt_status_to_dos_error 0 ≡ some 0)
    × (nt_status_to_dos_error 0xc0010000 ≡ some 0)
    × (nt_status_to_dos_error 0xd0010000 ≡ some 0)
    × (nt_status_to_dos_error 0x80070000 ≡ some 0)
unfolding nt_status_to_dos_error normalize find_mapping error_table special_case
zero_codes = (refl, refl, refl, refl)

-- A status of 32 bits always has a code: no entry behind the end of a table is read. The code is 0, which is
-- success, for no status but 0, 0xC0010000, 0xD0010000 and 0x80070000.
pub nt_status_to_dos_error-eq_zero :
    (status : ℕ)
    → status < 2 ^ 32
    → (code : ℕ) × (nt_status_to_dos_error status ≡ some code)
      × ((code ≡ 0)
          ↔ ((status ≡ 0) ⊎ (status ≡ 0xc0010000) ⊎ (status ≡ 0xd0010000) ⊎ (status ≡ 0x80070000)))
nt_status_to_dos_error-eq_zero status b =
    let (code, e, forward) = nt_status_to_dos_error_total status b in
    let mapped = λ (k : ℕ) (same : status ≡ k) (zero_at : nt_status_to_dos_error k ≡ some 0).
      some_inj (sym e ∙ ap nt_status_to_dos_error same ∙ zero_at) in
    (
      code,
      e,
      (
        forward,
        λ h. elim h [
          | inl p ↦ mapped 0 p zero_codes.0
          | inr (inl p) ↦ mapped 0xc0010000 p zero_codes.1
          | inr (inr (inl p)) ↦ mapped 0xd0010000 p zero_codes.2
          | inr (inr (inr p)) ↦ mapped 0x80070000 p zero_codes.3
        ],
      ),
    )
