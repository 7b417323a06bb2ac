-- ===== src/Xc/Sha/Stream.antt =====
-- The buffering of sha.cpp: however the data is cut into pieces, the context holds the state after all whole blocks of
-- the data so far, and the bytes behind them.
use nboxkrnl.Prelude.{
  ℕ, zero, suc, ◌+◌, ◌-◌, ◌/◌, ◌%◌, ◌^◌, ◌≤◌, ◌<◌, ◌≡◌, refl, ap, sym, ◌∙◌, arith, subst, List, [],
  ◌∷◌, ◌++◌, false, ltb, leb, if◌then◌else◌, take, drop, length, length-append, length-take,
  length-drop, take-append-drop, append-nil, append_assoc, Bool-cases, inl, inr,
}
use nboxkrnl.Xc.Sha.{
  Registers, ShaCtx, initial_state, copy_to, absorb, sha_update, sha1_transform, add32,
}
use nboxkrnl.Xc.Sha.Compress.{sha1_transform-compress}
use nboxkrnl.Xc.Sha.Blocks.{join, compress_all, IsDigest, IsDigest-append, length-rest}

take-append : (xs ys : List ℕ) → take (length xs) (xs ++ ys) ≡ xs
take-append [] ys = refl
take-append (x ∷ xs) ys = ap (λ l. x ∷ l) (take-append xs ys)

drop_all : (n : ℕ) (xs : List ℕ) → length xs ≤ n → drop n xs ≡ []
drop_all zero [] h = refl
drop_all zero (x ∷ xs) h = absurd (omega arith)
drop_all (suc n) [] h = refl
drop_all (suc n) (x ∷ xs) h = drop_all n xs (omega arith)

length-copy_to :
    (buffer : List ℕ) (offset : ℕ) (bytes : List ℕ)
    → length buffer ≡ 64
    → offset + length bytes ≤ 64
    → length (copy_to buffer offset bytes) ≡ 64
length-copy_to buffer offset bytes h room = omega (
  arith,
  length-append (take offset buffer) (bytes ++ drop (offset + length bytes) buffer),
  length-append bytes (drop (offset + length bytes) buffer),
  length-take offset buffer,
  length-drop (offset + length bytes) buffer,
)

copy_to_whole :
    (buffer : List ℕ) (content : ℕ) (input : List ℕ)
    → content < 64
    → length buffer ≡ 64
    → 64 ≤ content + length input
    → copy_to buffer content (take (64 - content) input)
      ≡ take content buffer ++ take (64 - content) input
copy_to_whole buffer content input c h full =
    let piece = take (64 - content) input in
    let none_left : drop (content + length piece) buffer ≡ [] =
      drop_all (content + length piece) buffer (omega (arith, length-take (64 - content) input)) in
    ap (λ l. take content buffer ++ (piece ++ l)) none_left
    ∙ ap (◌++◌ (take content buffer)) (append-nil piece)

-- What the loop and the copy behind it leave.
abbrev IsAbsorbed : Registers → List ℕ → Registers × List ℕ → Type 0
IsAbsorbed s message result =
    (rest : List ℕ) × IsDigest s message result.0 rest
    × (take (length rest) result.1 ≡ rest)
    × (length result.1 ≡ 64)

absorb-IsAbsorbed :
    (fuel : ℕ) (s : Registers) (buffer : List ℕ) (content : ℕ) (input : List ℕ)
    → content < 64
    → length buffer ≡ 64
    → length input < fuel
    → length input < 2 ^ 29
    → IsAbsorbed s (take content buffer ++ input) (absorb fuel s buffer content input)
unfolding absorb join compress_all
absorb-IsAbsorbed zero s buffer content input c h f small = elim f [ ]
absorb-IsAbsorbed (suc fuel) s buffer content input c h f small =
    let no_wrap : add32 content (length input) ≡ content + length input = omega arith in
    elim (Bool-cases (leb 64 (add32 content (length input)))) [
      | inl full ↦
          let room : 64 ≤ content + length input = ground arith in
          let piece = take (64 - content) input in
          let block = copy_to buffer content piece in
          let sized : length block ≡ 64 =
            length-copy_to buffer content piece h
              (omega (arith, length-take (64 - content) input)) in
          let (t, l) = sha1_transform-compress s block sized in
          let (rest, d, e, k) =
            absorb-IsAbsorbed fuel (sha1_transform s block).0 (sha1_transform s block).1 0
              (drop (64 - content) input) (omega arith) l
              (omega (arith, length-drop (64 - content) input))
              (omega (arith, length-drop (64 - content) input)) in
          rw (full, absorb)
            (
              rest,
              record {
                blocks = block ∷ d.blocks;
                whole_blocks = (sized, d.whole_blocks);
                whole =
                    unfold join in
                    (ap (λ l. take content buffer ++ l)
                        (sym (take-append-drop (64 - content) input))
                      ∙ sym (append_assoc (take content buffer) piece (drop (64 - content) input))
                      ∙ ap (λ l. l ++ drop (64 - content) input)
                          (sym (copy_to_whole buffer content input c h room))
                      ∙ ap (◌++◌ block) d.whole
                      ∙ sym (append_assoc block (join d.blocks) rest));
                short = d.short;
                state = (d.state ∙ ap (λ x. compress_all x d.blocks) t);
              },
              e,
              k,
            )
      | inr short ↦
          let all = take content buffer ++ input in
          let fits : content + length input < 64 = ground arith in
          rw (short, absorb)
            (
              all,
              record {
                blocks = [];
                whole_blocks = tt;
                whole = refl;
                short =
                    omega (
                      arith,
                      length-append (take content buffer) input,
                      length-take content buffer,
                    );
                state = refl;
              },
              ap (take (length all)) (
                    sym (
                      append_assoc (take content buffer) input
                        (drop (content + length input) buffer)))
                  ∙ take-append all (drop (content + length input) buffer),
              length-copy_to buffer content input h (omega arith),
            )
    ]

-- What a context says of the data so far.
pub record IsContext (c : ShaCtx) (message : List ℕ) : Type 0 where
  pub rest : List ℕ
  pub digest : IsDigest initial_state message c.state rest
  pub held : take (length rest) c.buffer ≡ rest
  pub sized : length c.buffer ≡ 64
  pub low : c.count_low ≡ length message % 2 ^ 32
  pub high : c.count_high ≡ length message / 2 ^ 32 % 2 ^ 32

-- The test for a short input only leaves the loop out.
update-IsAbsorbed :
    (s : Registers) (buffer : List ℕ) (content : ℕ) (input : List ℕ)
    → content < 64
    → length buffer ≡ 64
    → length input < 2 ^ 29
    → IsAbsorbed s (take content buffer ++ input) (
        if ltb (add32 content (length input)) 64
        then (s, copy_to buffer content input)
        else absorb (suc (length input)) s buffer content input)
unfolding absorb
update-IsAbsorbed s buffer content input c h small =
    elim (Bool-cases (ltb (add32 content (length input)) 64)) [
      | inl p ↦
          let stops : leb 64 (add32 content (length input)) ≡ false = ground arith in
          rw p (
            rw stops at (
              absorb-IsAbsorbed (suc (length input)) s buffer content input c h (omega arith)
                small))
      | inr p ↦
          rw p
            (absorb-IsAbsorbed (suc (length input)) s buffer content input c h (omega arith) small)
    ]

-- The counter of bytes in two words.
counted_high :
    (m n low high : ℕ)
    → low ≡ m % 2 ^ 32
    → high ≡ m / 2 ^ 32 % 2 ^ 32
    → n < 2 ^ 29
    → add32 (if ltb (add32 low n) n then add32 high 1 else high) (n / 2 ^ 29)
      ≡ (m + n) / 2 ^ 32 % 2 ^ 32
counted_high m n low high e f small = elim (Bool-cases (ltb (add32 low n) n)) [
  | inl p ↦
      let wrapped : add32 low n < n = ground arith in
      let carry : add32 high 1 ≡ (m + n) / 2 ^ 32 % 2 ^ 32 = omega arith in rw p (omega arith)
  | inr p ↦
      let kept : n ≤ add32 low n = ground arith in
      let same : high ≡ (m + n) / 2 ^ 32 % 2 ^ 32 = omega arith in rw p (omega arith)
]

-- `A_SHAUpdate` with fewer than 2 ^ 29 bytes: whatever the context has taken before, it goes on to the state of the
-- data with the new bytes behind it.
pub sha_update-IsContext :
    (c : ShaCtx) (message input : List ℕ)
    → IsContext c message
    → length input < 2 ^ 29
    → IsContext (sha_update c input) (message ++ input)
unfolding sha_update
sha_update-IsContext c message input x small =
    let size = length-append message input in
    let low = x.low in
    let high = x.high in
    let content : c.count_low % 64 ≡ length x.rest = omega (arith, length-rest x.digest) in
    let (rest, d, e, k) =
      update-IsAbsorbed c.state c.buffer (c.count_low % 64) input (omega arith) x.sized small in
    let held : take (c.count_low % 64) c.buffer ≡ x.rest =
      ap (λ n. take n c.buffer) content ∙ x.held in
    record {
      rest = rest;
      digest =
          IsDigest-append input x.digest
            (subst (λ l. IsDigest c.state (l ++ input) (sha_update c input).state rest) held d);
      held = e;
      sized = k;
      low = omega arith;
      high =
          counted_high (length message) (length input) c.count_low c.count_high low high small
          ∙ ap (λ n. n / 2 ^ 32 % 2 ^ 32) (sym size);
    }
