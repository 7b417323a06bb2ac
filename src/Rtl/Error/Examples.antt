-- ===== src/Rtl/Error/Examples.antt =====
-- The theorems on error.cpp at STATUS_TIMEOUT, the first entry of the first table, and at a status that no table
-- has.
use nboxkrnl.Prelude.{ℕ, ◌+◌, ◌≡◌, refl, arith, some, [], ◌↔◌, ◌⊎◌, drop}
use nboxkrnl.Rtl.Error.Tables.{table_00000102}
use nboxkrnl.Rtl.Error.Lookup.{ErrorTable, error_table, nt_status_to_dos_error}
use nboxkrnl.Rtl.Error.Mapping.{nt_status_to_dos_error-row, nt_status_to_dos_error-eq_zero}

abbrev first : ErrorTable
first = record { start = 0x102; end = 0x122; table = table_00000102 }

nt_status_to_dos_error-row_example : nt_status_to_dos_error (0x102 + 0) ≡ some 1460
unfolding error_table table_00000102
nt_status_to_dos_error-row_example =
    nt_status_to_dos_error-row [] first (drop 1 error_table) 0 1460 refl refl

nt_status_to_dos_error-eq_zero_example :
    (code : ℕ) × (nt_status_to_dos_error 0xc0010007 ≡ some code)
    × ((code ≡ 0) ↔ (
        (◌≡◌ {A = ℕ} 0xc0010007 0)
        ⊎ (◌≡◌ {A = ℕ} 0xc0010007 0xc0010000)
        ⊎ (◌≡◌ {A = ℕ} 0xc0010007 0xd0010000)
        ⊎ (◌≡◌ {A = ℕ} 0xc0010007 0x80070000)))
nt_status_to_dos_error-eq_zero_example = nt_status_to_dos_error-eq_zero 0xc0010007 (omega arith)
