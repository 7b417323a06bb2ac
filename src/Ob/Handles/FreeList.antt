-- ===== src/Ob/Handles/FreeList.antt =====
-- The free list that the entries of the handle table of nboxkrnl/ob/obp.cpp hold.
use nboxkrnl.Prelude.{
  ℕ, zero, suc, ◌+◌, ◌-◌, ◌*◌, ◌^◌, ◌≤◌, ◌<◌, ◌≡◌, refl, ap, sym, ◌∙◌, subst, arith, Option, some,
  List, [], ◌∷◌, NotIn, AreDistinct, length,
}
use nboxkrnl.Ob.Handles.{write, decode_free, link_free}

-- The indices of the free entries from an entry `first` on. The last link of a table, decoded, is
-- 2 ^ 32 - 2.
abbrev pub IsChain : (ℕ → Option ℕ) → ℕ → List ℕ → Type 0
IsChain f first [] = first ≡ 2 ^ 32 - 2
IsChain f first (i ∷ is) =
    (first ≡ i * 4) × (i < 64) × ((x : ℕ) × (f i ≡ some x) × IsChain f (decode_free x) is)

pub IsChain-write :
    (f : ℕ → Option ℕ) (i x first : ℕ) (is : List ℕ)
    → NotIn i is
    → IsChain f first is
    → IsChain (write f i x) first is
IsChain-write f i x first [] n c = c
IsChain-write f i x first (j ∷ js) n (e, b, (y, r, c)) =
    (e, b, (y, ground arith, IsChain-write f i x (decode_free y) js n.1 c))

pub link_free-next : (n i next : ℕ) (f : ℕ → Option ℕ) → (link_free n i next f).1 ≡ next + 4 * n
unfolding link_free
link_free-next zero i next f = omega arith
link_free-next (suc n) i next f = link_free-next n (i + 1) (next + 4) (write f i next) ∙ omega arith

pub link_free_below : (n i next j : ℕ) (f : ℕ → Option ℕ) → j < i → (link_free n i next f).0 j ≡ f j
unfolding link_free
link_free_below zero i next j f h = refl
link_free_below (suc n) i next j f h =
    link_free_below n (i + 1) (next + 4) j (write f i next) (omega arith) ∙ ground arith

pub link_free_above :
    (n i next j : ℕ) (f : ℕ → Option ℕ) → i + n ≤ j → (link_free n i next f).0 j ≡ f j
unfolding link_free
link_free_above zero i next j f h = refl
link_free_above (suc n) i next j f h =
    link_free_above n (i + 1) (next + 4) j (write f i next) (omega arith) ∙ ground arith

pub link_free_at :
    (n i next j : ℕ) (f : ℕ → Option ℕ)
    → j < n
    → (link_free n i next f).0 (i + j) ≡ some (next + 4 * j)
unfolding link_free
link_free_at zero i next j f h = ground arith
link_free_at (suc n) i next zero f h =
    link_free_below n (i + 1) (next + 4) (i + 0) (write f i next) (omega arith) ∙ ground arith
link_free_at (suc n) i next (suc j) f h =
    let shift : i + 1 + j ≡ i + suc j = omega arith in
    let value : next + 4 + 4 * j ≡ next + 4 * suc j = omega arith in
    ap (link_free n (i + 1) (next + 4) (write f i next)).0 (sym shift)
    ∙ link_free_at n (i + 1) (next + 4) j (write f i next) (omega arith)
    ∙ ap some value

abbrev pub up_from : ℕ → ℕ → List ℕ
up_from i zero = []
up_from i (suc n) = i ∷ up_from (i + 1) n

pub length-up_from : (i n : ℕ) → length (up_from i n) ≡ n
length-up_from i zero = refl
length-up_from i (suc n) = omega (arith, length-up_from (i + 1) n)

pub NotIn-up_from : (j i n : ℕ) → j < i → NotIn j (up_from i n)
NotIn-up_from j i zero h = tt
NotIn-up_from j i (suc n) h = ((λ e. omega arith), NotIn-up_from j (i + 1) n (omega arith))

pub AreDistinct-up_from : (i n : ℕ) → AreDistinct (up_from i n)
AreDistinct-up_from i zero = tt
AreDistinct-up_from i (suc n) =
    (NotIn-up_from i (i + 1) n (omega arith), AreDistinct-up_from (i + 1) n)

-- The links that a new first table has, from the entry `i` on.
pub IsChain-up_from :
    (f : ℕ → Option ℕ) (i n : ℕ)
    → ((j : ℕ) → 0 < j → j < 63 → f j ≡ some (5 + 4 * j))
    → f 63 ≡ some (2 ^ 32 - 1)
    → 0 < i
    → i + suc n ≡ 64
    → IsChain f (i * 4) (up_from i (suc n))
IsChain-up_from f i zero links last p e =
    let at : i ≡ 63 = omega arith in
    (refl, omega arith, (2 ^ 32 - 1, subst (λ k. f k ≡ some (2 ^ 32 - 1)) (sym at) last, refl))
IsChain-up_from f i (suc n) links last p e =
    let next : decode_free (5 + 4 * i) ≡ (i + 1) * 4 = omega arith in
    (
      refl,
      omega arith,
      (
        5 + 4 * i,
        links i p (omega arith),
        subst (λ k. IsChain f k (up_from (i + 1) (suc n))) (sym next)
            (IsChain-up_from f (i + 1) n links last (omega arith) (omega arith)),
      ),
    )
