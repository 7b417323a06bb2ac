-- ===== src/Ob/Directory.antt =====
-- The directories of nboxkrnl/ob/obp.cpp and the end of `ObInsertObject` of ob.cpp. A directory and an
-- object are numbers, with 0 for NULL_HANDLE. A chain of a bucket is the list of its names and objects.
-- CHAR is signed, and unsigned long has 32 bits.
pub mod Hash
pub mod Lookup
mod Examples
use nboxkrnl.Prelude.{
  ℕ, ◌+◌, ◌-◌, ◌*◌, ◌/◌, ◌%◌, ◌^◌, Bool, true, false, Option, none, some, List, [], ◌∷◌, length,
  ltb, ◌==◌, ◌&&◌, if◌then◌else◌,
}
use nboxkrnl.Rtl.Strings.{CountedString}
use nboxkrnl.Rtl.Compare.{equal_string, is_within}

-- A CHAR, converted to unsigned long.
abbrev pub char_word : ℕ → ℕ
char_word c = if ltb c 128 then c else c + (2 ^ 32 - 256)

-- The djb2 loop.
unfoldable pub hash_loop : ℕ → List ℕ → ℕ
hash_loop hash [] = hash
hash_loop hash (c ∷ cs) = hash_loop ((hash * 32 % 2 ^ 32 + hash + char_word c) % 2 ^ 32) cs

-- `Hash & (OB_NUMBER_HASH_BUCKETS - 1)`, which is `Hash & 10`.
abbrev pub mask_ten : ℕ → ℕ
mask_ten h = h / 2 % 2 * 2 + h / 8 % 2 * 8

unfoldable pub object_hash_index : List ℕ → ℕ
object_hash_index name = mask_ten (hash_loop 5381 name)

abbrev pub object_string : List ℕ → CountedString
object_string name = record {
  length = length name;
  maximum_length = length name + 1;
  buffer = name;
}

unfoldable pub is_same_name : List ℕ → List ℕ → Bool
is_same_name name other = equal_string (object_string name) (object_string other) true

pub record Directories : Type 0 where
  pub buckets : ℕ → ℕ → List (List ℕ × ℕ)
  pub link_target : ℕ → Option ℕ
  pub dos_devices : ℕ
  pub drive_letters : ℕ → ℕ

-- The index of a drive letter in the array.
unfoldable pub letter_index : ℕ → Option ℕ
letter_index c =
    if is_within b'A' b'Z' c
    then some (c - b'A')
    else if is_within b'a' b'z' c
    then some (c - b'a')
    else none

-- The first CHAR of a name of the form `X:`.
unfoldable pub drive_of : List ℕ → Option ℕ
drive_of (c ∷ d ∷ []) = if d == b':' then some c else none
drive_of name = none

abbrev pub follow_link : Directories → Bool → ℕ → ℕ
follow_link ds follow object = elim (ds.link_target object) [
  | none ↦ object
  | some target ↦ if follow then target else object
]

-- The loop over the chain of a bucket.
unfoldable pub find_in_chain : Directories → Bool → List ℕ → List (List ℕ × ℕ) → ℕ
find_in_chain ds follow name [] = 0
find_in_chain ds follow name ((other, object) ∷ chain) =
    let rest = find_in_chain ds follow name chain in
    if is_same_name name other then follow_link ds follow object else rest

unfoldable pub find_drive : Directories → ℕ → ℕ
find_drive ds c = elim (letter_index c) [ none ↦ 0 | some i ↦ ds.drive_letters i ]

-- The letter that a lookup in a directory reads from the array, if it does.
unfoldable pub drive_in : Directories → ℕ → List ℕ → Option ℕ
drive_in ds directory name = if directory == ds.dos_devices then drive_of name else none

unfoldable pub find_object : Directories → ℕ → List ℕ → Bool → ℕ
find_object ds directory name follow = elim (if follow then drive_in ds directory name else none) [
  | some c ↦ find_drive ds c
  | none ↦ find_in_chain ds follow name (ds.buckets directory (object_hash_index name))
]

abbrev set_letter : (ℕ → ℕ) → Option ℕ → ℕ → ℕ → ℕ
set_letter letters none object = letters
set_letter letters (some i) object = λ j. if j == i then object else letters j

abbrev set_drive : Directories → Option ℕ → ℕ → ℕ → ℕ
set_drive ds none object = ds.drive_letters
set_drive ds (some c) object = set_letter ds.drive_letters (letter_index c) object

abbrev set_bucket :
    (ℕ → ℕ → List (List ℕ × ℕ)) → ℕ → ℕ → List (List ℕ × ℕ) → ℕ → ℕ → List (List ℕ × ℕ)
set_bucket buckets directory index chain d i =
    if d == directory && i == index then chain else buckets d i

-- The lines of `ObInsertObject` that put an object into a directory under its name.
unfoldable pub insert_object : Directories → ℕ → List ℕ → ℕ → Directories
insert_object ds directory name object =
    let index = object_hash_index name in
    record ds {
      buckets = set_bucket ds.buckets directory index ((name, object) ∷ ds.buckets directory index);
      drive_letters = set_drive ds (drive_in ds directory name) (follow_link ds true object);
    }

-- The loop of `ObpDetachNamedObject` and the write to the link in front of the object.
unfoldable pub unchain : ℕ → List (List ℕ × ℕ) → List (List ℕ × ℕ)
unchain object [] = []
unchain object ((name, other) ∷ chain) =
    if other == object then chain else (name, other) ∷ unchain object chain

unfoldable pub detach_named_object : Directories → ℕ → List ℕ → ℕ → Directories
detach_named_object ds directory name object =
    let index = object_hash_index name in
    record ds {
      buckets = set_bucket ds.buckets directory index (unchain object (ds.buckets directory index));
      drive_letters = set_drive ds (drive_in ds directory name) 0;
    }
