-- ===== src/Xc/Sha/Blocks.antt =====
-- A message as the whole blocks that sha.cpp has compressed and the bytes behind them.
use nboxkrnl.Prelude.{
  ℕ, ◌*◌, ◌%◌, ◌<◌, ◌≡◌, refl, ap, sym, ◌∙◌, arith, List, [], ◌∷◌, ◌++◌, length, length-append,
  append_assoc,
}
use nboxkrnl.Xc.Sha.{Registers}
use nboxkrnl.Xc.Sha.Reference.{compress}

unfoldable pub join : List (List ℕ) → List ℕ
join [] = []
join (b ∷ bs) = b ++ join bs

unfoldable pub compress_all : Registers → List (List ℕ) → Registers
compress_all s [] = s
compress_all s (b ∷ bs) = compress_all (compress s b) bs

abbrev pub AreBlocks : List (List ℕ) → Type 0
AreBlocks [] = Unit {0}
AreBlocks (b ∷ bs) = (length b ≡ 64) × AreBlocks bs

-- From `s`, the whole blocks of the message lead to `s'` and leave `rest`.
pub record IsDigest (s : Registers) (message : List ℕ) (s' : Registers) (rest : List ℕ)
    : Type 0 where
  pub blocks : List (List ℕ)
  pub whole_blocks : AreBlocks blocks
  pub whole : message ≡ join blocks ++ rest
  pub short : length rest < 64
  pub state : s' ≡ compress_all s blocks

join-append : (bs cs : List (List ℕ)) → join (bs ++ cs) ≡ join bs ++ join cs
unfolding join
join-append [] cs = refl
join-append (b ∷ bs) cs = ap (◌++◌ b) (join-append bs cs) ∙ sym (append_assoc b (join bs) (join cs))

compress_all-append :
    (s : Registers) (bs cs : List (List ℕ))
    → compress_all s (bs ++ cs) ≡ compress_all (compress_all s bs) cs
unfolding compress_all
compress_all-append s [] cs = refl
compress_all-append s (b ∷ bs) cs = compress_all-append (compress s b) bs cs

AreBlocks-append : (bs cs : List (List ℕ)) → AreBlocks bs → AreBlocks cs → AreBlocks (bs ++ cs)
AreBlocks-append [] cs h k = k
AreBlocks-append (b ∷ bs) cs h k = (h.0, AreBlocks-append bs cs h.1 k)

length-join : (bs : List (List ℕ)) → AreBlocks bs → length (join bs) ≡ 64 * length bs
unfolding join
length-join [] h = omega arith
length-join (b ∷ bs) h = omega (arith, length-append b (join bs), length-join bs h.1, h.0)

pub IsDigest-append :
    {s s' s'' : Registers} {message rest rest' : List ℕ} (more : List ℕ)
    → IsDigest s message s' rest
    → IsDigest s' (rest ++ more) s'' rest'
    → IsDigest s (message ++ more) s'' rest'
IsDigest-append {s} {rest = rest} {rest' = rest'} more d e = record {
  blocks = d.blocks ++ e.blocks;
  whole_blocks = AreBlocks-append d.blocks e.blocks d.whole_blocks e.whole_blocks;
  whole =
      ap (λ l. l ++ more) d.whole
      ∙ append_assoc (join d.blocks) rest more
      ∙ ap (◌++◌ (join d.blocks)) e.whole
      ∙ sym (append_assoc (join d.blocks) (join e.blocks) rest')
      ∙ ap (λ l. l ++ rest') (sym (join-append d.blocks e.blocks));
  short = e.short;
  state =
      e.state
      ∙ ap (λ x. compress_all x e.blocks) d.state
      ∙ sym (compress_all-append s d.blocks e.blocks);
}

pub length-rest :
    {s s' : Registers} {message rest : List ℕ}
    → IsDigest s message s' rest
    → length rest ≡ length message % 64
length-rest {rest} d =
    let short = d.short in
    omega (
      arith,
      ap length d.whole,
      length-append (join d.blocks) rest,
      length-join d.blocks d.whole_blocks,
    )
