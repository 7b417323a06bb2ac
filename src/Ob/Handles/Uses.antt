-- ===== src/Ob/Handles/Uses.antt =====
-- The handles of nboxkrnl/ob/obp.cpp that are in use, with their objects, and their entries.
use nboxkrnl.Prelude.{
  ℕ, suc, ◌%◌, ◌<◌, ◌≡◌, ◌≢◌, refl, ap, sym, arith, Option, some, List, [], ◌∷◌, ◌++◌, NotIn,
  AreDistinct, length,
}
use nboxkrnl.Ob.Handles.{write}

abbrev pub IsPointer : ℕ → Type 0
IsPointer o = (0 < o) × (o % 2 ≡ 0)

-- The handles in use, divided by 4, with their objects.
abbrev pub Uses : Type 0
Uses = List (ℕ × ℕ)

abbrev pub indices : Uses → List ℕ
indices [] = []
indices ((i, o) ∷ us) = i ∷ indices us

abbrev pub IsUse : (ℕ → Option ℕ) → List ℕ → ℕ → ℕ → Type 0
IsUse f free i o = (f i ≡ some o) × IsPointer o × (i < 64) × NotIn i free

abbrev pub AreUses : (ℕ → Option ℕ) → List ℕ → Uses → Type 0
AreUses f free [] = Unit {0}
AreUses f free ((i, o) ∷ us) = IsUse f free i o × AreUses f free us

pub AreUses-write :
    (f : ℕ → Option ℕ) (free : List ℕ) (i x : ℕ) (us : Uses)
    → NotIn i (indices us)
    → AreUses f free us
    → AreUses (write f i x) (i ∷ free) us
AreUses-write f free i x [] n h = tt
AreUses-write f free i x ((j, y) ∷ us) n ((r, p, l, m), h) =
    ((ground arith, p, l, ((λ e. n.0 (sym e)), m)), AreUses-write f free i x us n.1 h)

pub AreUses-taken :
    (f : ℕ → Option ℕ) (i x : ℕ) (free : List ℕ) (us : Uses)
    → AreUses f (i ∷ free) us
    → AreUses (write f i x) free us × NotIn i (indices us)
AreUses-taken f i x free [] h = (tt, tt)
AreUses-taken f i x free ((j, y) ∷ us) ((r, p, l, (d, m)), h) =
    let (later, apart) = AreUses-taken f i x free us h in
    (((ground arith, p, l, m), later), ((λ e. d (sym e)), apart))

pub NotIn-middle :
    (j i o : ℕ) (before after : Uses)
    → NotIn j (indices (before ++ ((i, o) ∷ after)))
    → (i ≢ j) × NotIn j (indices (before ++ after))
NotIn-middle j i o [] after n = n
NotIn-middle j i o ((k, y) ∷ before) after (d, n) =
    let (e, m) = NotIn-middle j i o before after n in (e, (d, m))

pub AreDistinct-middle :
    (i o : ℕ) (before after : Uses)
    → AreDistinct (indices (before ++ ((i, o) ∷ after)))
    → AreDistinct (indices (before ++ after)) × NotIn i (indices (before ++ after))
AreDistinct-middle i o [] after (n, d) = (d, n)
AreDistinct-middle i o ((k, y) ∷ before) after (n, d) =
    let (e, m) = AreDistinct-middle i o before after d in
    let (a, b) = NotIn-middle k i o before after n in ((b, e), ((λ g. a (sym g)), m))

pub AreUses-middle :
    (f : ℕ → Option ℕ) (free : List ℕ) (i o : ℕ) (before after : Uses)
    → AreUses f free (before ++ ((i, o) ∷ after))
    → AreUses f free (before ++ after) × IsUse f free i o
AreUses-middle f free i o [] after (h, rest) = (rest, h)
AreUses-middle f free i o ((k, y) ∷ before) after (h, rest) =
    let (kept, found) = AreUses-middle f free i o before after rest in ((h, kept), found)

pub length-middle :
    (u : ℕ × ℕ) (before after : Uses)
    → length (before ++ (u ∷ after)) ≡ suc (length (before ++ after))
length-middle u [] after = refl
length-middle u (k ∷ before) after = ap suc (length-middle u before after)
