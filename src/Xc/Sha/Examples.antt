-- ===== src/Xc/Sha/Examples.antt =====
-- The digest that sha.cpp gives for "abc", and the theorems on it for the same text in two pieces.
use nboxkrnl.Prelude.{◌≡◌, refl, arith, [], ◌∷◌, replicate, map, length}
use nboxkrnl.Xc.Sha.{
  ShaCtx, sha_init, sha_update, sha_final, initial_state, dword_to_be, sha1_transform,
}
use nboxkrnl.Xc.Sha.Reference.{compress_words, words_high_first, sha1}
use nboxkrnl.Xc.Sha.Compress.{sha1_transform-compress_words}
use nboxkrnl.Xc.Sha.Blocks.{join}
use nboxkrnl.Xc.Sha.Digest.{update_all, sha_final-update_all}

abbrev unused : ShaCtx
unused = record { state = initial_state; count_high = 0; count_low = 0; buffer = replicate 64 0 }

abc :
    map dword_to_be (sha_final (sha_update (sha_init unused) (b'a' ∷ b'b' ∷ b'c' ∷ []))).0
    ≡ 0xa9993e36 ∷ 0x4706816a ∷ 0xba3e2571 ∷ 0x7850c26c ∷ 0x9cd0d89d ∷ []
unfolding sha_final sha_update sha_init sha1_transform dword_to_be
abc = refl

sha1_transform-compress_words_example :
    ((sha1_transform initial_state (replicate 64 7)).0
      ≡ compress_words initial_state (words_high_first (replicate 64 7)))
    × (length (sha1_transform initial_state (replicate 64 7)).1 ≡ 64)
sha1_transform-compress_words_example =
    sha1_transform-compress_words initial_state (replicate 64 7) (ground arith) refl

sha_final-update_all_example :
    (sha_final (update_all (sha_init unused) ((b'a' ∷ []) ∷ (b'b' ∷ b'c' ∷ []) ∷ []))).0
    ≡ sha1 (join ((b'a' ∷ []) ∷ (b'b' ∷ b'c' ∷ []) ∷ []))
sha_final-update_all_example =
    sha_final-update_all unused ((b'a' ∷ []) ∷ (b'b' ∷ b'c' ∷ []) ∷ []) refl (omega arith)
      (unfold join in (omega arith))
