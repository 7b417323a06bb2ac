-- ===== src/Rtl/Error/Lookup.antt =====
-- `RtlNtStatusToDosError` of nboxkrnl/rtl/error.cpp, on the status as a number below 2 ^ 32. The message of the
-- debugger is left out. The end of the list of tables is the entry whose start is 0.
use nboxkrnl.Prelude.{
  ℕ, ◌-◌, ◌/◌, ◌%◌, ◌^◌, Bool, Option, none, some, List, [], ◌∷◌, ◌||◌, ltb, ◌==◌, if◌then◌else◌,
  get_elem?,
}
use nboxkrnl.Rtl.Error.Tables.{
  table_00000102, table_40000002, table_40000370, table_40020056, table_400200af, table_80000001,
  table_80000288, table_80090300, table_80092010, table_80096004, table_80130001, table_c0020001,
  table_c0030001, table_c0030059, table_c00a0001, table_c0130001, table_c0150001,
}
use nboxkrnl.Rtl.Error.LongTables.{table_c0000001, table_c0000202}

pub record ErrorTable : Type 0 where
  pub start : ℕ
  pub end : ℕ
  pub table : List ℕ

abbrev entry : ℕ → ℕ → List ℕ → ErrorTable
entry start end table = record { start = start; end = end; table = table }

unfoldable pub error_table : List ErrorTable
error_table =
    entry 0x00000102 0x00000122 table_00000102
    ∷ entry 0x40000002 0x40000026 table_40000002
    ∷ entry 0x40000370 0x40000371 table_40000370
    ∷ entry 0x40020056 0x40020057 table_40020056
    ∷ entry 0x400200af 0x400200b0 table_400200af
    ∷ entry 0x80000001 0x80000028 table_80000001
    ∷ entry 0x80000288 0x8000028a table_80000288
    ∷ entry 0x80090300 0x80090348 table_80090300
    ∷ entry 0x80092010 0x80092014 table_80092010
    ∷ entry 0x80096004 0x80096005 table_80096004
    ∷ entry 0x80130001 0x80130006 table_80130001
    ∷ entry 0xc0000001 0xc000019c table_c0000001
    ∷ entry 0xc0000202 0xc000038e table_c0000202
    ∷ entry 0xc0020001 0xc0020064 table_c0020001
    ∷ entry 0xc0030001 0xc003000d table_c0030001
    ∷ entry 0xc0030059 0xc0030062 table_c0030059
    ∷ entry 0xc00a0001 0xc00a0037 table_c00a0001
    ∷ entry 0xc0130001 0xc0130017 table_c0130001
    ∷ entry 0xc0150001 0xc0150028 table_c0150001
    ∷ []

abbrev pub error_mr_mid_not_found : ℕ
error_mr_mid_not_found = 317

abbrev pub hiword : ℕ → ℕ
hiword x = x / 2 ^ 16

abbrev pub loword : ℕ → ℕ
loword x = x % 2 ^ 16

-- The part behind the loop.
unfoldable pub special_case : ℕ → ℕ
special_case status =
    if hiword status == 0xc001
    then loword status
    else if hiword status == 0x8007
    then loword status
    else error_mr_mid_not_found

-- An entry that was read; `none` is a read behind the end of the table.
abbrev pub known_or_default : Option ℕ → Option ℕ
known_or_default none = none
known_or_default (some ret) = some (if ret == 0 then error_mr_mid_not_found else ret)

unfoldable pub find_mapping : ℕ → List ErrorTable → Option ℕ
find_mapping status [] = some (special_case status)
find_mapping status (t ∷ ts) =
    let rest = find_mapping status ts in
    if ltb status t.start
    then some (special_case status)
    else if ltb status t.end
    then known_or_default (get_elem? t.table (status - t.start))
    else rest

-- `Status & 0x20000000`, as a test.
abbrev pub is_customer : ℕ → Bool
is_customer status = status / 2 ^ 29 % 2 == 1

-- 0xd... is read as 0xc...
unfoldable pub normalize : ℕ → ℕ
normalize status = if status / 2 ^ 28 == 0xd then status - 2 ^ 28 else status

unfoldable pub nt_status_to_dos_error : ℕ → Option ℕ
nt_status_to_dos_error status =
    if status == 0 || is_customer status
    then some status
    else find_mapping (normalize status) error_table
