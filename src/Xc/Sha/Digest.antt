-- ===== src/Xc/Sha/Digest.antt =====
-- The digest that sha.cpp gives for data that comes in pieces is the SHA-1 digest of the data.
use nboxkrnl.Prelude.{
  ℕ, zero, suc, ◌+◌, ◌-◌, ◌*◌, ◌/◌, ◌%◌, ◌^◌, ◌≤◌, ◌<◌, ◌≡◌, refl, ap, ap, sym, ◌∙◌, arith, subst,
  List, [], ◌∷◌, ◌++◌, true, false, leb, take, drop, length, replicate, length-append,
  length-replicate, append-nil, append_assoc,
}
use nboxkrnl.Xc.Sha.{
  Registers, ShaCtx, initial_state, sha_init, sha_update, sha_final, padding, pad_length, bytes_of,
  dword_to_be, result_of,
}
use nboxkrnl.Xc.Sha.Reference.{compress, hash, be64, end_of_message, sha1}
use nboxkrnl.Xc.Sha.Blocks.{join, compress_all, AreBlocks}
use nboxkrnl.Xc.Sha.Stream.{IsContext, sha_update-IsContext}

take_block : (n : ℕ) (b more : List ℕ) → length b ≡ n → take n (b ++ more) ≡ b
take_block zero [] more h = refl
take_block zero (x ∷ b) more h = absurd (omega arith)
take_block (suc n) [] more h = absurd (omega arith)
take_block (suc n) (x ∷ b) more h = ap (λ l. x ∷ l) (take_block n b more (omega arith))

drop_block : (n : ℕ) (b more : List ℕ) → length b ≡ n → drop n (b ++ more) ≡ more
drop_block zero [] more h = refl
drop_block zero (x ∷ b) more h = absurd (omega arith)
drop_block (suc n) [] more h = absurd (omega arith)
drop_block (suc n) (x ∷ b) more h = drop_block n b more (omega arith)

hash-join :
    (fuel : ℕ) (s : Registers) (bs : List (List ℕ)) (rest : List ℕ)
    → AreBlocks bs
    → length rest < 64
    → length (join bs ++ rest) < fuel
    → hash fuel s (join bs ++ rest) ≡ compress_all s bs
unfolding hash join compress_all
hash-join zero s bs rest h k f = elim f [ ]
hash-join (suc fuel) s [] rest h k f =
    let stops : leb 64 (length rest) ≡ false = ground arith in rw stops refl
hash-join (suc fuel) s (b ∷ bs) rest h k f =
    let more = join bs ++ rest in
    let same = append_assoc b (join bs) rest in
    let total : length ((b ++ join bs) ++ rest) ≡ 64 + length more =
      ap length same ∙ length-append b more ∙ ap (λ n. n + length more) h.0 in
    let goes_on : leb 64 (length ((b ++ join bs) ++ rest)) ≡ true = ground arith in
    rw goes_on (
      ap (λ l. hash fuel (compress s (take 64 l)) (drop 64 l)) same
      ∙ ap (λ l. hash fuel (compress s l) (drop 64 (b ++ more))) (take_block 64 b more h.0)
      ∙ ap (hash fuel (compress s b)) (drop_block 64 b more h.0)
      ∙ hash-join fuel (compress s b) bs rest h.1 k (omega arith))

bytes_of-dword_to_be :
    (high low : ℕ)
    → high < 2 ^ 32
    → low < 2 ^ 32
    → bytes_of (dword_to_be high ∷ dword_to_be low ∷ []) ≡ be64 (high * 2 ^ 32 + low)
unfolding bytes_of dword_to_be
bytes_of-dword_to_be high low h l = ground arith

-- The padding that the context asks for is that of the standard.
padding-end_of_message :
    (c : ShaCtx) (message : List ℕ)
    → IsContext c message
    → length message < 2 ^ 61
    → padding c ≡ end_of_message (length message)
unfolding padding end_of_message
padding-end_of_message c message x bounded =
    let low = x.low in
    let high = x.high in
    let zeros : pad_length (c.count_low % 64) - 1 ≡ (119 - length message % 64) % 64 =
      unfold pad_length in (ground arith) in
    let length_high = c.count_high * 2 ^ 3 % 2 ^ 32 + c.count_low / 2 ^ (32 - 3) in
    let length_low = c.count_low * 2 ^ 3 % 2 ^ 32 in
    let bits : length_high * 2 ^ 32 + length_low ≡ 8 * length message = omega arith in
    ap
      (λ n.
        0x80 ∷ replicate n 0 ++ bytes_of (dword_to_be length_high ∷ dword_to_be length_low ∷ []))
      zeros
    ∙ ap (λ l. 0x80 ∷ replicate ((119 - length message % 64) % 64) 0 ++ l)
        (bytes_of-dword_to_be length_high length_low (omega arith) (omega arith) ∙ ap be64 bits)

length-end_of_message : (size : ℕ) → length (end_of_message size) ≤ 72
unfolding end_of_message
length-end_of_message size = omega (
  arith,
  length-append (replicate ((119 - size % 64) % 64) 0) (be64 (8 * size)),
  length-replicate {A = ℕ} ((119 - size % 64) % 64) 0,
)

-- `A_SHAFinal` of a context that has taken a message gives the digest of the message, and starts the context anew.
sha_final-sha1 :
    (c : ShaCtx) (message : List ℕ)
    → IsContext c message
    → length message < 2 ^ 61
    → ((sha_final c).0 ≡ sha1 message)
      × ((sha_final c).1.state ≡ initial_state)
      × ((sha_final c).1.count_high ≡ 0)
      × ((sha_final c).1.count_low ≡ 0)
unfolding sha_final sha1 sha_init
sha_final-sha1 c message x bounded =
    let padded = padding-end_of_message c message x bounded in
    let small : length (padding c) < 2 ^ 29 =
      omega (arith, ap length padded, length-end_of_message (length message)) in
    let y = sha_update-IsContext c message (padding c) x small in
    let d = y.digest in
    let whole = message ++ end_of_message (length message) in
    let same : whole ≡ join d.blocks ++ y.rest = ap (◌++◌ message) (sym padded) ∙ d.whole in
    (
      ap result_of (
          d.state
          ∙ sym (
              hash-join (suc (length (join d.blocks ++ y.rest))) initial_state d.blocks y.rest
                d.whole_blocks d.short (omega arith))
          ∙ ap (λ l. hash (suc (length l)) initial_state l) (sym same)),
      refl,
      refl,
      refl,
    )

pub update_all : ShaCtx → List (List ℕ) → ShaCtx
update_all c [] = c
update_all c (p ∷ ps) = update_all (sha_update c p) ps

abbrev pub AreSmall : List (List ℕ) → Type 0
AreSmall [] = Unit {0}
AreSmall (p ∷ ps) = (length p < 2 ^ 29) × AreSmall ps

update_all-IsContext :
    (c : ShaCtx) (message : List ℕ) (pieces : List (List ℕ))
    → IsContext c message
    → AreSmall pieces
    → IsContext (update_all c pieces) (message ++ join pieces)
unfolding update_all join
update_all-IsContext c message [] x h = rw (append-nil message) x
update_all-IsContext c message (p ∷ ps) x h =
    subst (IsContext (update_all (sha_update c p) ps)) (append_assoc message p (join ps)) (
      update_all-IsContext (sha_update c p) (message ++ p) ps
        (sha_update-IsContext c message p x h.0) h.1)

sha_init-IsContext : (c : ShaCtx) → length c.buffer ≡ 64 → IsContext (sha_init c) []
unfolding sha_init join compress_all
sha_init-IsContext c h = record {
  rest = [];
  digest = record {
    blocks = [];
    whole_blocks = tt;
    whole = refl;
    short = omega arith;
    state = refl;
  };
  held = refl;
  sized = h;
  low = omega arith;
  high = omega arith;
}

-- `A_SHAInit`, `A_SHAUpdate` for each of any pieces of fewer than 2 ^ 29 bytes, and `A_SHAFinal` give the SHA-1
-- digest of the pieces put together, where they have fewer than 2 ^ 61 bytes.
pub sha_final-update_all :
    (c : ShaCtx) (pieces : List (List ℕ))
    → length c.buffer ≡ 64
    → AreSmall pieces
    → length (join pieces) < 2 ^ 61
    → (sha_final (update_all (sha_init c) pieces)).0 ≡ sha1 (join pieces)
sha_final-update_all c pieces h small bounded =
    (sha_final-sha1 (update_all (sha_init c) pieces) (join pieces)
      (update_all-IsContext (sha_init c) [] pieces (sha_init-IsContext c h) small) bounded).0
