-- ===== src/Rtl/Divide/Examples.antt =====
-- The division of rtl.cpp at the greatest dividend and the greatest divisor.
use nboxkrnl.Prelude.{◌-◌, ◌/◌, ◌%◌, ◌^◌, ◌≡◌, some, arith}
use nboxkrnl.Rtl.Divide.{extended_large_integer_divide}
use nboxkrnl.Rtl.Divide.Quotient.{extended_large_integer_divide_lem}

extended_large_integer_divide_lem_example :
    extended_large_integer_divide (2 ^ 64 - 1) (2 ^ 32 - 1)
    ≡ some ((2 ^ 64 - 1) / (2 ^ 32 - 1), (2 ^ 64 - 1) % (2 ^ 32 - 1))
extended_large_integer_divide_lem_example =
    extended_large_integer_divide_lem (2 ^ 64 - 1) (2 ^ 32 - 1) (omega arith) (omega arith)
      (omega arith)
