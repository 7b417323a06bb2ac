-- ===== src/Xc/Sha/Compress.antt =====
-- The transformation of a block by sha.cpp against the compression of the standard.
use nboxkrnl.Prelude.{
  ℕ, zero, suc, ◌+◌, ◌*◌, ◌%◌, ◌^◌, ◌<◌, ◌≡◌, refl, ap, ap₂, sym, ◌∙◌, arith, List, [], ◌∷◌, ◌++◌,
  map, set, length, length-set, length-map, append-nil,
}
use nboxkrnl.Xc.Sha.{
  Registers, rol, swap_bytes, round, words, bytes_of, next_word, rounds, sha1_transform,
}
use nboxkrnl.Xc.Sha.Reference.{
  extend, run_steps, step_at, sum_of, compress, compress_words, words_high_first,
}
use nboxkrnl.Xc.Sha.Rounds.{early_rounds, late_rounds}

run_steps-append :
    (i : ℕ) (us ws : List ℕ) (r : Registers)
    → run_steps i (us ++ ws) r ≡ run_steps (i + length us) ws (run_steps i us r)
unfolding run_steps
run_steps-append i [] ws r = let here : i ≡ i + 0 = omega arith in ap (λ k. run_steps k ws r) here
run_steps-append i (u ∷ us) ws r =
    let here : suc i + length us ≡ i + suc (length us) = omega arith in
    run_steps-append (suc i) us ws (step_at i u r)
    ∙ ap (λ k. run_steps k ws (run_steps (suc i) us (step_at i u r))) here

length-rounds :
    (n i : ℕ) (r : Registers) (block : List ℕ) → length (rounds n i r block).1 ≡ length block
unfolding rounds
length-rounds zero i r block = refl
length-rounds (suc n) i r block =
    length-rounds n (suc i) (round i (next_word i block) r) (set block (i % 16) (next_word i block))
    ∙ length-set block (i % 16) (next_word i block)

length-words : (n : ℕ) (bytes : List ℕ) → length bytes ≡ 4 * n → length (words bytes) ≡ n
unfolding words
length-words zero [] h = refl
length-words zero (a ∷ bytes) h = absurd (omega arith)
length-words (suc n) (a ∷ b ∷ c ∷ d ∷ bytes) h = omega (arith, length-words n bytes (omega arith))
length-words (suc n) [] h = absurd (omega arith)
length-words (suc n) (a ∷ []) h = absurd (omega arith)
length-words (suc n) (a ∷ b ∷ []) h = absurd (omega arith)
length-words (suc n) (a ∷ b ∷ c ∷ []) h = absurd (omega arith)

length-bytes_of : (xs : List ℕ) → length (bytes_of xs) ≡ 4 * length xs
unfolding bytes_of
length-bytes_of [] = omega arith
length-bytes_of (x ∷ xs) = omega (arith, length-bytes_of xs)

-- The compression of the standard of the words as the first rounds turn them.
pub sha1_transform-compress :
    (state : Registers) (buffer : List ℕ)
    → length buffer ≡ 64
    → ((sha1_transform state buffer).0 ≡ compress state buffer)
      × (length (sha1_transform state buffer).1 ≡ 64)
unfolding sha1_transform compress compress_words
sha1_transform-compress state buffer h =
    let sixteen : length (words buffer) ≡ 16 = length-words 16 buffer (omega arith) in
    let first = map swap_bytes (words buffer) in
    let all : 80 ≡ length (words buffer) + 64 = omega arith in
    let first_sixteen : length first ≡ 16 = length-map (words buffer) swap_bytes ∙ sixteen in
    let start : 0 + length first ≡ 16 = omega arith in
    (
      ap (sum_of state) (
          ap (λ k. (rounds k 0 state (words buffer)).0) all
          ∙ early_rounds 64 state [] (words buffer) (omega arith)
          ∙ late_rounds 64 16 (run_steps 0 first state) [] first (omega arith) (omega arith)
              (omega arith)
          ∙ ap (λ l. run_steps 16 (extend 64 l) (run_steps 0 first state)) (append-nil first)
          ∙ ap (λ k. run_steps k (extend 64 first) (run_steps 0 first state)) (sym start)
          ∙ sym (run_steps-append 0 first (extend 64 first) state)),
      length-bytes_of (rounds 80 0 state (words buffer)).1
          ∙ omega (arith, length-rounds 80 0 state (words buffer)),
    )

abbrev pub AreBytes : List ℕ → Type 0
AreBytes [] = Unit {0}
AreBytes (b ∷ bytes) = (b < 2 ^ 8) × AreBytes bytes

swap_bytes_lem :
    (a b c d : ℕ)
    → a < 2 ^ 8
    → b < 2 ^ 8
    → c < 2 ^ 8
    → d < 2 ^ 8
    → swap_bytes (a + b * 2 ^ 8 + c * 2 ^ 16 + d * 2 ^ 24) ≡ a * 2 ^ 24 + b * 2 ^ 16 + c * 2 ^ 8 + d
unfolding swap_bytes rol
swap_bytes_lem a b c d h k l m = omega arith

swap_bytes-words :
    (bytes : List ℕ) → AreBytes bytes → map swap_bytes (words bytes) ≡ words_high_first bytes
unfolding words words_high_first
swap_bytes-words (a ∷ b ∷ c ∷ d ∷ bytes) h =
    ap₂ ◌∷◌ (swap_bytes_lem a b c d (h.0) (h.1.0) (h.1.1.0) (h.1.1.1.0))
      (swap_bytes-words bytes (h.1.1.1.1))
swap_bytes-words [] h = refl
swap_bytes-words (a ∷ []) h = refl
swap_bytes-words (a ∷ b ∷ []) h = refl
swap_bytes-words (a ∷ b ∷ c ∷ []) h = refl

-- The in-place rounds of SHA1Transform on a block of 64 bytes are the compression of the standard, with its
-- functions given bit by bit and its constants, of the sixteen words that the bytes are with the high byte first;
-- 64 bytes are left in the buffer.
pub sha1_transform-compress_words :
    (state : Registers) (buffer : List ℕ)
    → AreBytes buffer
    → length buffer ≡ 64
    → ((sha1_transform state buffer).0 ≡ compress_words state (words_high_first buffer))
      × (length (sha1_transform state buffer).1 ≡ 64)
unfolding compress
sha1_transform-compress_words state buffer b h =
    let (t, l) = sha1_transform-compress state buffer h in
    (t ∙ ap (compress_words state) (swap_bytes-words buffer b), l)
