-- ===== src/Xc/Sha/Reference.antt =====
-- SHA-1 as the standard describes it: eighty words from each block of the padded message, and a round for each word,
-- with functions on the single bits of the words. It shares with nboxkrnl/xc/sha.cpp the records, the words of a buffer
-- and the bytes of the result.
use Prim.Native.Nat.{bit_xor}
use nboxkrnl.Prelude.{
  ℕ, zero, suc, ◌+◌, ◌-◌, ◌*◌, ◌/◌, ◌%◌, ◌^◌, List, [], ◌∷◌, ◌++◌, map, ltb, leb, ◌==◌,
  if◌then◌else◌, get_or, take, drop, length, replicate,
}
use nboxkrnl.Xc.Sha.{Registers, swap_bytes, words, initial_state, result_of}

-- `f` of each bit of three words. The first argument is enough halvings to end at 0.
unfoldable pub each_bit : ℕ → (ℕ → ℕ → ℕ → ℕ) → ℕ → ℕ → ℕ → ℕ
each_bit zero f x y z = 0
each_bit (suc n) f x y z = each_bit n f (x / 2) (y / 2) (z / 2) * 2 + f (x % 2) (y % 2) (z % 2)

abbrev pub choice : ℕ → ℕ → ℕ → ℕ
choice x y z = if x == 1 then y else z

abbrev pub parity : ℕ → ℕ → ℕ → ℕ
parity x y z = (x + y + z) % 2

abbrev pub majority : ℕ → ℕ → ℕ → ℕ
majority x y z = if leb 2 (x + y + z) then 1 else 0

abbrev pub on_words : (ℕ → ℕ → ℕ → ℕ) → ℕ → ℕ → ℕ → ℕ
on_words f x y z = each_bit (x + y + z) f x y z

unfoldable pub function_at : ℕ → ℕ → ℕ → ℕ → ℕ
function_at t x y z =
    if ltb t 20
    then on_words choice x y z
    else if ltb t 40
    then on_words parity x y z
    else if ltb t 60
    then on_words majority x y z
    else on_words parity x y z

unfoldable pub constant_at : ℕ → ℕ
constant_at t =
    if ltb t 20
    then 1518500249
    else if ltb t 40
    then 1859775393
    else if ltb t 60
    then 2400959708
    else 3395469782

-- A rotation to the left within 32 bits.
abbrev pub rotate : ℕ → ℕ → ℕ
rotate n x = x % 2 ^ (32 - n) * 2 ^ n + x / 2 ^ (32 - n)

-- The five words in the order a, b, c, d, e.
unfoldable pub step_at : ℕ → ℕ → Registers → Registers
step_at t word r = record {
  v = (rotate 5 r.v + function_at t r.w r.x r.y + r.z + constant_at t + word) % 2 ^ 32;
  w = r.v;
  x = rotate 30 r.w;
  y = r.x;
  z = r.y;
}

unfoldable pub run_steps : ℕ → List ℕ → Registers → Registers
run_steps t [] r = r
run_steps t (word ∷ ws) r = run_steps (suc t) ws (step_at t word r)

-- The word that follows sixteen words of the schedule.
unfoldable pub following : List ℕ → ℕ
following win = rotate 1 (
    bit_xor (bit_xor (bit_xor (get_or win 13 0) (get_or win 8 0)) (get_or win 2 0))
      (get_or win 0 0))

unfoldable pub extend : ℕ → List ℕ → List ℕ
extend zero win = []
extend (suc n) win = following win ∷ extend n (drop 1 win ++ (following win ∷ []))

abbrev pub sum_of : Registers → Registers → Registers
sum_of s r = record {
  v = (s.v + r.v) % 2 ^ 32;
  w = (s.w + r.w) % 2 ^ 32;
  x = (s.x + r.x) % 2 ^ 32;
  y = (s.y + r.y) % 2 ^ 32;
  z = (s.z + r.z) % 2 ^ 32;
}

-- The compression of a block of sixteen words.
unfoldable pub compress_words : Registers → List ℕ → Registers
compress_words state first = sum_of state (run_steps 0 (first ++ extend 64 first) state)

-- The words of a block: the standard stores the high byte first.
unfoldable pub words_high_first : List ℕ → List ℕ
words_high_first (a ∷ b ∷ c ∷ d ∷ bytes) =
    (a * 2 ^ 24 + b * 2 ^ 16 + c * 2 ^ 8 + d) ∷ words_high_first bytes
words_high_first bytes = []

unfoldable pub compress : Registers → List ℕ → Registers
compress state block = compress_words state (map swap_bytes (words block))

unfoldable pub hash : ℕ → Registers → List ℕ → Registers
hash zero state message = state
hash (suc fuel) state message =
    let rest = hash fuel (compress state (take 64 message)) (drop 64 message) in
    if leb 64 (length message) then rest else state

-- A number of 64 bits from the high byte to the low one.
abbrev pub be64 : ℕ → List ℕ
be64 n =
    n / 2 ^ 56 % 2 ^ 8
    ∷ n / 2 ^ 48 % 2 ^ 8
    ∷ n / 2 ^ 40 % 2 ^ 8
    ∷ n / 2 ^ 32 % 2 ^ 8
    ∷ n / 2 ^ 24 % 2 ^ 8
    ∷ n / 2 ^ 16 % 2 ^ 8
    ∷ n / 2 ^ 8 % 2 ^ 8
    ∷ n % 2 ^ 8
    ∷ []

-- A one bit, zeros up to 56 bytes of the last block, and the length in bits.
unfoldable pub end_of_message : ℕ → List ℕ
end_of_message size = 0x80 ∷ replicate ((119 - size % 64) % 64) 0 ++ be64 (8 * size)

unfoldable pub sha1 : List ℕ → List ℕ
unfolding hash end_of_message
sha1 message =
    let whole = message ++ end_of_message (length message) in
    result_of (hash (suc (length whole)) initial_state whole)
