-- ===== src/Xc/Sha.antt =====
-- nboxkrnl/xc/sha.cpp: SHA-1 over data that comes in pieces. Words are numbers below 2 ^ 32. Where the source
-- joins bits that do not overlap by `|`, the model adds them, and a mask of whole bytes is written out as
-- the bytes that it keeps. The wiping of the local variables is left out.
pub mod Reference
pub mod Bits
pub mod Functions
pub mod Rounds
pub mod Compress
pub mod Blocks
pub mod Stream
pub mod Digest
mod Examples
use Prim.Native.Nat.{bit_and, bit_or, bit_xor}
use nboxkrnl.Prelude.{
  ℕ, zero, suc, ◌+◌, ◌-◌, ◌*◌, ◌/◌, ◌%◌, ◌^◌, List, [], ◌∷◌, ◌++◌, map, ltb, leb, if◌then◌else◌,
  set, get_or, take, drop, length, replicate,
}

abbrev pub add32 : ℕ → ℕ → ℕ
add32 a b = (a + b) % 2 ^ 32

unfoldable pub rol : ℕ → ℕ → ℕ
rol value bits = value * 2 ^ bits % 2 ^ 32 + value / 2 ^ (32 - bits)

-- The bytes of a word in the other order.
unfoldable pub dword_to_be : ℕ → ℕ
dword_to_be x =
    x / 2 ^ 24 % 2 ^ 8
    + x / 2 ^ 16 % 2 ^ 8 * 2 ^ 8
    + x / 2 ^ 8 % 2 ^ 8 * 2 ^ 16
    + x % 2 ^ 8 * 2 ^ 24

-- `(rol(x,24)&0xFF00FF00)|(rol(x,8)&0x00FF00FF)`.
unfoldable pub swap_bytes : ℕ → ℕ
unfolding rol
swap_bytes x =
    rol x 24 / 2 ^ 24 % 2 ^ 8 * 2 ^ 24
    + rol x 24 / 2 ^ 8 % 2 ^ 8 * 2 ^ 8
    + rol x 8 / 2 ^ 16 % 2 ^ 8 * 2 ^ 16
    + rol x 8 % 2 ^ 8

unfoldable pub f1 : ℕ → ℕ → ℕ → ℕ
f1 x y z = bit_xor z (bit_and x (bit_xor y z))

unfoldable pub f2 : ℕ → ℕ → ℕ → ℕ
f2 x y z = bit_xor (bit_xor x y) z

unfoldable pub f3 : ℕ → ℕ → ℕ → ℕ
f3 x y z = bit_or (bit_and x y) (bit_and z (bit_or x y))

unfoldable pub f4 : ℕ → ℕ → ℕ → ℕ
f4 x y z = bit_xor (bit_xor x y) z

-- The working variables, in the order in which a round takes them.
pub record Registers : Type 0 where
  pub v : ℕ
  pub w : ℕ
  pub x : ℕ
  pub y : ℕ
  pub z : ℕ

-- The function and the constant of a round: those of R0 and R1, R2, R3 and R4.
unfoldable pub mix : ℕ → ℕ → ℕ → ℕ → ℕ
unfolding f1 f2 f3 f4
mix i w x y =
    if ltb i 20
    then f1 w x y + 0x5a827999
    else if ltb i 40
    then f2 w x y + 0x6ed9eba1
    else if ltb i 60
    then f3 w x y + 0x8f1bbcdc
    else f4 w x y + 0xca62c1d6

-- A round changes `z` and `w`; the next one takes the variables in the order z, v, w, x, y.
unfoldable pub round : ℕ → ℕ → Registers → Registers
unfolding mix rol
round i word r = record {
  v = (r.z + mix i r.w r.x r.y + word + rol r.v 5) % 2 ^ 32;
  w = r.v;
  x = rol r.w 30;
  y = r.x;
  z = r.y;
}

-- The word that `blk0` and `blk1` write to `Block[i&15]`.
unfoldable pub next_word : ℕ → List ℕ → ℕ
unfolding swap_bytes rol
next_word i block =
    if ltb i 16
    then swap_bytes (get_or block i 0)
    else rol
        (bit_xor
          (bit_xor (bit_xor (get_or block ((i + 13) % 16) 0) (get_or block ((i + 8) % 16) 0))
            (get_or block ((i + 2) % 16) 0))
          (get_or block (i % 16) 0))
        1

unfoldable pub rounds : ℕ → ℕ → Registers → List ℕ → Registers × List ℕ
unfolding next_word round
rounds zero i r block = (r, block)
rounds (suc n) i r block =
    let word = next_word i block in rounds n (suc i) (round i word r) (set block (i % 16) word)

-- The words of a buffer of bytes, and the bytes of words: the processor stores the low byte first.
unfoldable pub words : List ℕ → List ℕ
words (a ∷ b ∷ c ∷ d ∷ bytes) = (a + b * 2 ^ 8 + c * 2 ^ 16 + d * 2 ^ 24) ∷ words bytes
words bytes = []

unfoldable pub bytes_of : List ℕ → List ℕ
bytes_of [] = []
bytes_of (x ∷ xs) =
    x % 2 ^ 8 ∷ x / 2 ^ 8 % 2 ^ 8 ∷ x / 2 ^ 16 % 2 ^ 8 ∷ x / 2 ^ 24 % 2 ^ 8 ∷ bytes_of xs

abbrev pub add_registers : Registers → Registers → Registers
add_registers s r = record {
  v = add32 s.v r.v;
  w = add32 s.w r.w;
  x = add32 s.x r.x;
  y = add32 s.y r.y;
  z = add32 s.z r.z;
}

-- The state and the buffer, which the rounds use as their block.
unfoldable pub sha1_transform : Registers → List ℕ → Registers × List ℕ
unfolding rounds words bytes_of
sha1_transform state buffer =
    let (r, block) = rounds 80 0 state (words buffer) in (add_registers state r, bytes_of block)

pub record ShaCtx : Type 0 where
  pub state : Registers
  pub count_high : ℕ
  pub count_low : ℕ
  pub buffer : List ℕ

abbrev pub initial_state : Registers
initial_state = record {
  v = 0x67452301;
  w = 0xefcdab89;
  x = 0x98badcfe;
  y = 0x10325476;
  z = 0xc3d2e1f0;
}

unfoldable pub sha_init : ShaCtx → ShaCtx
sha_init c = record c { state = initial_state; count_high = 0; count_low = 0 }

-- `RtlCopyMemory(Buffer + offset, bytes, length)`.
abbrev pub copy_to : List ℕ → ℕ → List ℕ → List ℕ
copy_to buffer offset bytes = take offset buffer ++ (bytes ++ drop (offset + length bytes) buffer)

-- The while loop and the copy behind it. Each round takes at least one byte off the input, so one more than its
-- length is enough fuel for a piece of fewer than 2 ^ 32 - 64 bytes.
unfoldable pub absorb : ℕ → Registers → List ℕ → ℕ → List ℕ → Registers × List ℕ
absorb zero state buffer content input = (state, buffer)
absorb (suc fuel) state buffer content input =
    let (state', buffer') =
      sha1_transform state (copy_to buffer content (take (64 - content) input)) in
    let rest = absorb fuel state' buffer' 0 (drop (64 - content) input) in
    if leb 64 (add32 content (length input)) then rest else (state, copy_to buffer content input)

unfoldable pub sha_update : ShaCtx → List ℕ → ShaCtx
unfolding absorb
sha_update c input =
    let size = length input in
    let content = c.count_low % 64 in
    let low = add32 c.count_low size in
    let carried = if ltb low size then add32 c.count_high 1 else c.count_high in
    let (state, buffer) =
      if ltb (add32 content size) 64
      then (c.state, copy_to c.buffer content input)
      else absorb (suc size) c.state c.buffer content input in
    record {
      state = state;
      count_high = add32 carried (size / 2 ^ 29);
      count_low = low;
      buffer = buffer;
    }

unfoldable pub pad_length : ℕ → ℕ
pad_length content = if leb 56 content then 56 + 64 - content else 56 - content

-- The local buffer of `A_SHAFinal`.
unfoldable pub padding : ShaCtx → List ℕ
unfolding pad_length bytes_of dword_to_be
padding c =
    let length_high = c.count_high * 2 ^ 3 % 2 ^ 32 + c.count_low / 2 ^ (32 - 3) in
    let length_low = c.count_low * 2 ^ 3 % 2 ^ 32 in
    0x80 ∷ replicate (pad_length (c.count_low % 64) - 1) 0
    ++ bytes_of (dword_to_be length_high ∷ dword_to_be length_low ∷ [])

abbrev pub result_of : Registers → List ℕ
result_of s = map dword_to_be (s.v ∷ s.w ∷ s.x ∷ s.y ∷ s.z ∷ [])

unfoldable pub sha_final : ShaCtx → List ℕ × ShaCtx
unfolding sha_update padding sha_init
sha_final c = let done = sha_update c (padding c) in (result_of done.state, sha_init done)
