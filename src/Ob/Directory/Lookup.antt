-- ===== src/Ob/Directory/Lookup.antt =====
-- Lookups in the directories of nboxkrnl/ob after an object is put into one or taken out of it.
use nboxkrnl.Prelude.{
  ℕ, ◌≡◌, ◌⊎◌, inl, inr, refl, ap, sym, ◌∙◌, arith, Bool, true, false, none, List, [], ◌∷◌, ◌==◌,
  Bool-cases, if◌then◌else◌,
}
use nboxkrnl.Ob.Directory.{
  Directories, object_hash_index, is_same_name, follow_link, find_in_chain, drive_in, find_object,
  insert_object, unchain, detach_named_object, set_bucket,
}
use nboxkrnl.Ob.Directory.Hash.{object_hash_index-is_same_name}

-- The chain that a lookup goes through depends on the links alone.
find_in_chain-links :
    (ds es : Directories) (follow : Bool) (name : List ℕ) (chain : List (List ℕ × ℕ))
    → ds.link_target ≡ es.link_target
    → find_in_chain ds follow name chain ≡ find_in_chain es follow name chain
unfolding find_in_chain
find_in_chain-links ds es follow name [] e = refl
find_in_chain-links ds es follow name ((other, object) ∷ chain) e =
    let rest = find_in_chain-links ds es follow name chain e in rw rest (rw e refl)

set_bucket_at :
    (b : ℕ → ℕ → List (List ℕ × ℕ)) (d i j : ℕ) (chain : List (List ℕ × ℕ))
    → j ≡ i
    → set_bucket b d i chain d j ≡ chain
set_bucket_at b d i j chain e = ground arith

set_bucket_off :
    (b : ℕ → ℕ → List (List ℕ × ℕ)) (d i j : ℕ) (chain : List (List ℕ × ℕ))
    → j == i ≡ false
    → set_bucket b d i chain d j ≡ b d j
set_bucket_off b d i j chain e = ground arith

find_object-find_in_chain :
    (ds : Directories) (directory : ℕ) (name : List ℕ) (follow : Bool)
    → (follow ≡ false) ⊎ (drive_in ds directory name ≡ none)
    → find_object ds directory name follow
      ≡ find_in_chain ds follow name (ds.buckets directory (object_hash_index name))
unfolding find_object
find_object-find_in_chain ds directory name false h = refl
find_object-find_in_chain ds directory name true (inl e) = ground arith
find_object-find_in_chain ds directory name true (inr e) = rw (e, find_object) refl

find_in_chain_first :
    (ds : Directories) (follow : Bool) (name other : List ℕ) (object : ℕ)
    (chain : List (List ℕ × ℕ))
    → find_in_chain ds follow other ((name, object) ∷ chain) ≡ (
        if is_same_name other name
        then follow_link ds follow object
        else find_in_chain ds follow other chain)
unfolding find_in_chain
find_in_chain_first ds follow name other object chain = refl

-- A lookup that does not read a drive letter finds an object under the name that it was put in with, and
-- under every other spelling of it; other names are found as before.
pub find_object-insert_object :
    (ds : Directories) (directory : ℕ) (name other : List ℕ) (object : ℕ) (follow : Bool)
    → (follow ≡ false) ⊎ (drive_in ds directory other ≡ none)
    → find_object (insert_object ds directory name object) directory other follow ≡ (
        if is_same_name other name
        then follow_link ds follow object
        else find_object ds directory other follow)
unfolding insert_object drive_in
find_object-insert_object ds directory name other object follow h =
    find_object-find_in_chain ds' directory other follow h
    ∙ find_in_chain-links ds' ds follow other (ds'.buckets directory (object_hash_index other)) refl
    ∙ found (Bool-cases (object_hash_index other == object_hash_index name))
        (Bool-cases (is_same_name other name))
    ∙ ap (λ n. if is_same_name other name then follow_link ds follow object else n)
        (sym (find_object-find_in_chain ds directory other follow h))
  where
    ds' : Directories
    ds' = insert_object ds directory name object

    chain : List (List ℕ × ℕ)
    chain = ds.buckets directory (object_hash_index other)

    found :
        (object_hash_index other == object_hash_index name ≡ true)
          ⊎ (object_hash_index other == object_hash_index name ≡ false)
        → (is_same_name other name ≡ true) ⊎ (is_same_name other name ≡ false)
        → find_in_chain ds follow other (ds'.buckets directory (object_hash_index other)) ≡ (
            if is_same_name other name
            then follow_link ds follow object
            else find_in_chain ds follow other chain)
    found (inl e) c =
        let same : object_hash_index other ≡ object_hash_index name = ground arith in
        ap (find_in_chain ds follow other) (
          set_bucket_at ds.buckets directory (object_hash_index name) (object_hash_index other) _
            same)
        ∙ find_in_chain_first ds follow name other object _
        ∙ ap
            (λ k.
              if is_same_name other name
              then follow_link ds follow object
              else find_in_chain ds follow other (ds.buckets directory k))
            (sym same)
    found (inr e) (inl c) = let same = object_hash_index-is_same_name other name c in ground arith
    found (inr e) (inr c) =
        ap (find_in_chain ds follow other) (
          set_bucket_off ds.buckets directory (object_hash_index name) (object_hash_index other) _
            e)
        ∙ sym (rw c refl)

unchain_first :
    (name : List ℕ) (object : ℕ) (chain : List (List ℕ × ℕ))
    → unchain object ((name, object) ∷ chain) ≡ chain
unfolding unchain
unchain_first name object chain = ground arith

set_bucket_back :
    (b : ℕ → ℕ → List (List ℕ × ℕ)) (d i e j : ℕ) (chain : List (List ℕ × ℕ))
    → set_bucket (set_bucket b d i chain) d i (b d i) e j ≡ b e j
set_bucket_back b d i e j chain = elim (Bool-cases (e == d)) [
  | inr g ↦ ground arith
  | inl g ↦ elim (Bool-cases (j == i)) [
    | inr h ↦ ground arith
    | inl h ↦
        let same_d : e ≡ d = ground arith in
        let same_i : j ≡ i = ground arith in rw (g, h) (rw (same_d, same_i) refl)
  ]
]

-- An object that has just been put into a directory and is taken out of it again leaves every chain of
-- every directory as it was.
detach_named_object-insert_object :
    (ds : Directories) (directory : ℕ) (name : List ℕ) (object d i : ℕ)
    → (detach_named_object (insert_object ds directory name object) directory name object).buckets d
        i
      ≡ ds.buckets d i
unfolding detach_named_object insert_object
detach_named_object-insert_object ds directory name object d i =
    let index = object_hash_index name in
    let chain = ds.buckets directory index in
    ap
      (λ c.
        set_bucket (set_bucket ds.buckets directory index ((name, object) ∷ chain)) directory index
          c d i)
      (ap (unchain object) (set_bucket_at ds.buckets directory index index _ refl)
        ∙ unchain_first name object chain)
    ∙ set_bucket_back ds.buckets directory index d i ((name, object) ∷ chain)
