-- ===== src/Ob/Handles/History.antt =====
-- Histories of handles that are made and closed, from the table that `ObInitSystem` makes in
-- nboxkrnl/ob/ob.cpp, against a map from handles to objects.
use nboxkrnl.Prelude.{
  ℕ, ◌+◌, ◌*◌, ◌/◌, ◌≤◌, ◌<◌, ◌≡◌, ◌⊎◌, refl, sym, ◌∙◌, subst, arith, Bool, true, none, some, List,
  [], ◌∷◌, ◌++◌, NotIn, AreDistinct, length, ltb, inl, inr, some_inj,
}
use nboxkrnl.Ob.Handles.{
  HandleTable, decode_free, link_free, create_handle_for_object, destroy_object_handle,
  get_object_from_handle, init_system, add_table, allocate_new_handle_table,
}
use nboxkrnl.Ob.Handles.FreeList.{
  IsChain, IsChain-write, up_from, IsChain-up_from, AreDistinct-up_from, NotIn-up_from,
}
use nboxkrnl.Ob.Handles.Uses.{
  IsPointer, Uses, indices, AreUses, AreUses-write, AreUses-taken, NotIn-middle, AreDistinct-middle,
  AreUses-middle, length-middle,
}
use nboxkrnl.Ob.Handles.Operations.{
  none-some, not_zero, is_below, is_even, taken, create_first, create_none, destroy_used,
  start_entry, start_outside,
}

-- A handle is made for an object, or a handle that is in use is closed.
pub data Step : HandleTable × Uses → HandleTable × Uses → Type 0 where
  makes :
      (t t' : HandleTable) (us : Uses) (has_table has_root : Bool) (o h : ℕ)
      → IsPointer o
      → create_handle_for_object has_table has_root t o ≡ some (t', h)
      → Step (t, us) (t', (h / 4, o) ∷ us)
  closes :
      (t t' : HandleTable) (before after : Uses) (i o o' : ℕ)
      → destroy_object_handle t (i * 4) ≡ some (t', o')
      → Step (t, before ++ ((i, o) ∷ after)) (t', before ++ after)

pub data Reachable : HandleTable × Uses → Type 0 where
  at_start : Reachable ((init_system true true).0, [])
  then_step : {s t : HandleTable × Uses} → Reachable s → Step s t → Reachable t

pub record IsTable (t : HandleTable) (us : Uses) : Type 0 where
  free : List ℕ
  chain : IsChain t.entries t.first_free free
  distinct : AreDistinct free
  counted : length free + length us ≡ 63
  handles : t.handle_count ≡ length us
  one_table : t.next_needing_pool ≡ 256
  outside : (j : ℕ) → 64 ≤ j → t.entries j ≡ none
  used : AreUses t.entries free us
  apart : AreDistinct (indices us)
  none_zero : NotIn 0 free × NotIn 0 (indices us)

start-IsTable : IsTable (init_system true true).0 []
unfolding init_system allocate_new_handle_table add_table link_free
start-IsTable = record {
  free = up_from 1 63;
  chain = IsChain-up_from _ 1 62 start_entry refl (omega arith) (omega arith);
  distinct = AreDistinct-up_from 1 63;
  counted = refl;
  handles = refl;
  one_table = refl;
  outside = start_outside;
  used = tt;
  apart = tt;
  none_zero = (NotIn-up_from 0 1 63 (omega arith), tt);
}

makes-IsTable :
    (t t' : HandleTable) (us : Uses) (a b : Bool) (o h : ℕ) (free : List ℕ)
    → IsPointer o
    → create_handle_for_object a b t o ≡ some (t', h)
    → IsTable t us
    → IsChain t.entries t.first_free free
    → AreDistinct free
    → length free + length us ≡ 63
    → AreUses t.entries free us
    → NotIn 0 free × NotIn 0 (indices us)
    → IsTable t' ((h / 4, o) ∷ us)
makes-IsTable t t' us a b o h [] p e v c d n used z =
    absurd (none-some (sym (create_none t a b o c v.outside) ∙ e))
makes-IsTable t t' us a b o h (i ∷ is) p e v (f, l, (x, r, c)) d n used z =
    let same = some_inj (sym (create_first t a b o i x f r l) ∙ e) in
    let index : i * 4 / 4 ≡ i = omega arith in
    let (kept, apart) = AreUses-taken t.entries i o is us used in
    subst (λ (q : HandleTable × ℕ). IsTable q.0 ((q.1 / 4, o) ∷ us)) same
      (rw index (record {
        free = is;
        chain = IsChain-write t.entries i o (decode_free x) is d.0 c;
        distinct = d.1;
        counted = omega arith;
        handles = omega (arith, v.handles);
        one_table = v.one_table;
        outside = λ j k. ground (arith, v.outside j k);
        used = ((ground arith, p, l, d.0), kept);
        apart = (apart, v.apart);
        none_zero = (z.0.1, (z.0.0, z.1));
      }))

closes-IsTable :
    (t t' : HandleTable) (before after : Uses) (i o o' : ℕ)
    → destroy_object_handle t (i * 4) ≡ some (t', o')
    → IsTable t (before ++ ((i, o) ∷ after))
    → IsTable t' (before ++ after)
closes-IsTable t t' before after i o o' d v =
    let (kept, (r, p, l, n)) = AreUses-middle t.entries v.free i o before after v.used in
    let (apart, gone) = AreDistinct-middle i o before after v.apart in
    let zero_middle = NotIn-middle 0 i o before after v.none_zero.1 in
    let shorter = length-middle (i, o) before after in
    let same = some_inj (sym (destroy_used t i o v.one_table l r p) ∙ d) in
    let even = is_even t.entries t.first_free v.free v.chain in
    let decoded : decode_free t.first_free ≡ t.first_free = omega arith in
    let linked = IsChain-write t.entries i t.first_free t.first_free v.free n v.chain in
    subst (λ (q : HandleTable × ℕ). IsTable q.0 (before ++ after)) same
      (record {
        free = i ∷ v.free;
        chain = (refl, l, (t.first_free, ground arith, rw decoded linked));
        distinct = (n, v.distinct);
        counted = omega (arith, v.counted);
        handles = omega (arith, v.handles, v.counted);
        one_table = v.one_table;
        outside = λ j k. ground (arith, v.outside j k);
        used = AreUses-write t.entries v.free i t.first_free (before ++ after) gone kept;
        apart = apart;
        none_zero = ((zero_middle.0, v.none_zero.0), zero_middle.1);
      })

Step-IsTable : {s t : HandleTable × Uses} → Step s t → IsTable s.0 s.1 → IsTable t.0 t.1
Step-IsTable (makes t t' us a b o h p e) v =
    makes-IsTable t t' us a b o h v.free p e v v.chain v.distinct v.counted v.used v.none_zero
Step-IsTable (closes t t' before after i o o' d) v = closes-IsTable t t' before after i o o' d v

Reachable-IsTable : {s : HandleTable × Uses} → Reachable s → IsTable s.0 s.1
Reachable-IsTable at_start = start-IsTable
Reachable-IsTable (then_step r e) = Step-IsTable e (Reachable-IsTable r)

abbrev pub AreFound : HandleTable → Uses → Type 0
AreFound t [] = Unit {0}
AreFound t ((i, o) ∷ us) = (get_object_from_handle t (i * 4) ≡ some o) × AreFound t us

found :
    (t : HandleTable) (free : List ℕ) (us : Uses)
    → t.next_needing_pool ≡ 256
    → AreUses t.entries free us
    → AreFound t us
unfolding get_object_from_handle
found t free [] m h = tt
found t free ((i, o) ∷ us) m ((r, p, l, n), h) =
    let c = is_below i t m l in
    let d : i * 4 / 4 ≡ i = omega arith in
    (rw (c, get_object_from_handle) (rw (d, r) (ground (arith, p))), found t free us m h)

-- In every history of handles made and closed, all handles in use are distinct, each gives its
-- object, and their number is the handle count, which is at most 63.
pub Reachable-AreFound :
    (t : HandleTable) (us : Uses)
    → Reachable (t, us)
    → AreFound t us × AreDistinct (indices us) × (t.handle_count ≡ length us) × (length us ≤ 63)
Reachable-AreFound t us r =
    let v = Reachable-IsTable r in
    (found t v.free us v.one_table v.used, v.apart, v.handles, omega (arith, v.counted))

-- In every such history, a handle can be made while fewer than 63 are in use, and at 63 the next one
-- is not made from a new table: the routine reads an entry of a table that does not exist.
pub Reachable-create_handle_for_object :
    (t : HandleTable) (us : Uses) (has_table has_root : Bool) (object : ℕ)
    → Reachable (t, us)
    → (length us < 63)
        × ((t' : HandleTable) × (i : ℕ) × (create_handle_for_object has_table has_root t object
              ≡ some (t', i * 4))
            × NotIn i (indices us))
      ⊎ (length us ≡ 63) × (create_handle_for_object has_table has_root t object ≡ none)
Reachable-create_handle_for_object t us a b o r = make v.free v.chain v.counted v.used
  where
    v : IsTable t us
    v = Reachable-IsTable r

    make :
        (free : List ℕ)
        → IsChain t.entries t.first_free free
        → length free + length us ≡ 63
        → AreUses t.entries free us
        → (length us < 63)
            × ((t' : HandleTable) × (i : ℕ) × (create_handle_for_object a b t o ≡ some (t', i * 4))
                × NotIn i (indices us))
          ⊎ (length us ≡ 63) × (create_handle_for_object a b t o ≡ none)
    make [] c n used = inr (omega arith, create_none t a b o c v.outside)
    make (i ∷ is) (f, l, (x, e, c)) n used = inl (
      omega arith,
      (
        taken t i x o,
        i,
        create_first t a b o i x f e l,
        (AreUses-taken t.entries i o is us used).1,
      ),
    )

-- In every such history, a handle that has just been closed gives, in place of no object, the link of
-- the free list, which is not 0.
pub destroy_object_handle-get_object_from_handle :
    (t : HandleTable) (us : Uses) (i o : ℕ)
    → Reachable (t, (i, o) ∷ us)
    → (t' : HandleTable) × (destroy_object_handle t (i * 4) ≡ some (t', o))
      × (get_object_from_handle t' (i * 4) ≡ some t.first_free)
      × (0 < t.first_free)
unfolding get_object_from_handle
destroy_object_handle-get_object_from_handle t us i o r =
    let v = Reachable-IsTable r in
    let (a, p, l, n) = v.used.0 in
    let even = is_even t.entries t.first_free v.free v.chain in
    let positive = not_zero t.entries t.first_free v.free v.chain v.none_zero.0 in
    let c : ltb (i * 4) t.next_needing_pool ≡ true = is_below i t v.one_table l in
    let d : i * 4 / 4 ≡ i = omega arith in
    (
      _,
      destroy_used t i o v.one_table l a p,
      rw (c, get_object_from_handle) (rw d (ground (arith, even, positive))),
      positive,
    )
