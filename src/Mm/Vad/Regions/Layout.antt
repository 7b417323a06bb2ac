-- ===== src/Mm/Vad/Regions/Layout.antt =====
-- The address space as the regions of vad_tree.cpp describe it: they follow each other without a gap, and
-- each address has the type and the protection of its region.
use nboxkrnl.Prelude.{
  Bool, some_inj, ℕ, ◌+◌, ◌≤◌, ◌<◌, ◌≡◌, refl, ap, sym, ◌∙◌, arith, subst, Option, some, none, List,
  [], ◌∷◌, ◌++◌, inl, inr, ltb, leb, ◌&&◌, if◌then◌else◌, le_cases, ◌⊎◌,
}
use nboxkrnl.Mm.Vad.{Vad, VadType}
use nboxkrnl.Mm.Vad.Entries.{Entry, starts, AllBelow, AllAbove}
use nboxkrnl.Mm.Vad.Neighbours.{last_le, last_le_above}

abbrev pub IsContiguous : ℕ → ℕ → List Entry → Type 0
IsContiguous lo hi [] = lo ≡ hi
IsContiguous lo hi ((k, v) ∷ es) =
    (k ≡ lo) × (v.m_start ≡ lo) × (0 < v.m_size) × IsContiguous (lo + v.m_size) hi es

-- The type and the protection of an address.
abbrev pub region_of : Vad → VadType × ℕ
region_of v = (v.m_type, v.m_protect)

abbrev pub is_in : ℕ → ℕ → ℕ → Bool
is_in lo size a = leb lo a && ltb a (lo + size)

unfoldable pub region_at : ℕ → List Entry → Option (VadType × ℕ)
region_at a [] = none
region_at a ((k, v) ∷ es) = if is_in k v.m_size a then some (region_of v) else region_at a es

pub IsContiguous-append :
    (lo mid hi : ℕ) (es fs : List Entry)
    → IsContiguous lo mid es
    → IsContiguous mid hi fs
    → IsContiguous lo hi (es ++ fs)
IsContiguous-append lo mid hi [] fs c d = subst (λ x. IsContiguous x hi fs) (sym c) d
IsContiguous-append lo mid hi ((k, v) ∷ es) fs (p, q, r, c) d =
    (p, q, r, IsContiguous-append (lo + v.m_size) mid hi es fs c d)

pub IsContiguous-split :
    (lo hi : ℕ) (es fs : List Entry)
    → IsContiguous lo hi (es ++ fs)
    → (mid : ℕ) × IsContiguous lo mid es × IsContiguous mid hi fs
IsContiguous-split lo hi [] fs c = (lo, refl, c)
IsContiguous-split lo hi ((k, v) ∷ es) fs (p, q, r, c) =
    let (mid, d, e) = IsContiguous-split (lo + v.m_size) hi es fs c in (mid, (p, q, r, d), e)

pub IsContiguous-le : (lo hi : ℕ) (es : List Entry) → IsContiguous lo hi es → lo ≤ hi
IsContiguous-le lo hi [] c = omega arith
IsContiguous-le lo hi ((k, v) ∷ es) (p, q, r, c) =
    let later = IsContiguous-le (lo + v.m_size) hi es c in omega arith

pub IsContiguous-AllBelow :
    (lo hi : ℕ) (es : List Entry) → IsContiguous lo hi es → AllBelow hi (starts es)
IsContiguous-AllBelow lo hi [] c = tt
IsContiguous-AllBelow lo hi ((k, v) ∷ es) (p, q, r, c) =
    let later = IsContiguous-le (lo + v.m_size) hi es c in
    (omega arith, IsContiguous-AllBelow (lo + v.m_size) hi es c)

pub IsContiguous-AllAbove :
    (j lo hi : ℕ) (es : List Entry) → j < lo → IsContiguous lo hi es → AllAbove j (starts es)
IsContiguous-AllAbove j lo hi [] h c = tt
IsContiguous-AllAbove j lo hi ((k, v) ∷ es) h (p, q, r, c) =
    (omega arith, IsContiguous-AllAbove j (lo + v.m_size) hi es (omega arith) c)

pub region_at_outside :
    (a lo hi : ℕ) (es : List Entry)
    → IsContiguous lo hi es
    → (a < lo) ⊎ (hi ≤ a)
    → region_at a es ≡ none
unfolding region_at
region_at_outside a lo hi [] c h = refl
region_at_outside a lo hi ((k, v) ∷ es) (p, q, r, c) h =
    let beyond = IsContiguous-le (lo + v.m_size) hi es c in
    ground (arith, region_at_outside a (lo + v.m_size) hi es c)

-- The lookup looks through the first regions, then through the others.
pub region_at-append :
    (a : ℕ) (es fs gs : List Entry)
    → region_at a fs ≡ region_at a gs
    → region_at a (es ++ fs) ≡ region_at a (es ++ gs)
unfolding region_at
region_at-append a [] fs gs e = e
region_at-append a ((k, v) ∷ es) fs gs e =
    ap (λ x. if is_in k v.m_size a then some (region_of v) else x) (region_at-append a es fs gs e)

-- An address is in a given region or in one of those around it.
pub region_at_middle :
    (a lo s : ℕ) (v : Vad) (before after : List Entry)
    → IsContiguous lo s before
    → region_at a (before ++ ((s, v) ∷ after))
      ≡ (if is_in s v.m_size a then some (region_of v) else region_at a (before ++ after))
unfolding region_at
region_at_middle a lo s v [] after c = refl
region_at_middle a lo s v ((k, w) ∷ es) after (p, q, r, c) =
    let ends = IsContiguous-le (lo + w.m_size) s es c in
    let later = region_at_middle a (lo + w.m_size) s v es after c in ground (arith, later)

-- The region that contains an address, and the regions around it.
pub record Contains (lo hi a s : ℕ) (v : Vad) (es : List Entry) : Type 0 where
  pub before : List Entry
  pub after : List Entry
  pub around : es ≡ before ++ ((s, v) ∷ after)
  pub start : v.m_start ≡ s
  pub from : s ≤ a
  pub to : a < s + v.m_size
  pub below : IsContiguous lo s before
  pub above : IsContiguous (s + v.m_size) hi after

-- The last start at or below an address of the space is that of the region that contains it.
pub last_le-Contains :
    (a lo hi s : ℕ) (v : Vad) (es : List Entry) (best : Option Entry)
    → IsContiguous lo hi es
    → lo ≤ a
    → a < hi
    → last_le a best es ≡ some (s, v)
    → Contains lo hi a s v es
unfolding last_le
last_le-Contains a lo hi s v [] best c h l e = absurd (omega arith)
last_le-Contains a lo hi s v ((k, w) ∷ es) best (p, q, r, c) h l e =
    elim (le_cases (lo + w.m_size) a) [
      | inl beyond ↦
          let d =
            last_le-Contains a (lo + w.m_size) hi s v es (if leb k a then some (k, w) else best) c
              beyond l e in
          record {
            before = (k, w) ∷ d.before;
            after = d.after;
            around = ap (λ x. (k, w) ∷ x) d.around;
            start = d.start;
            from = d.from;
            to = d.to;
            below = (p, q, r, d.below);
            above = d.above;
          }
      | inr within ↦
          let last =
            last_le_above a (if leb k a then some (k, w) else best) es
              (IsContiguous-AllAbove a (lo + w.m_size) hi es within c) in
          let first : (if leb k a then some (k, w) else best) ≡ some (k, w) = ground arith in
          subst (λ x. Contains lo hi a x.0 x.1 ((k, w) ∷ es)) (some_inj (sym first ∙ sym last ∙ e))
            (record {
              before = [];
              after = es;
              around = refl;
              start = omega arith;
              from = omega arith;
              to = omega arith;
              below = sym p;
              above = subst (λ x. IsContiguous (x + w.m_size) hi es) (sym p) c;
            })
    ]
