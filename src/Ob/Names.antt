-- ===== src/Ob/Names.antt =====
-- The parsing of object names in nboxkrnl/ob: `ObpParseName` of obp.cpp and the loop over the parts of a
-- name in `ObCreateObject` of ob.cpp, with the copy of the last one to the new object. A name is the list of its CHARs. `ObpParseName` also reads the
-- first CHAR of an empty name; the model takes it not to be a delimiter.
pub mod Paths
mod Examples
use nboxkrnl.Prelude.{
  ℕ, zero, suc, Bool, true, false, Option, none, some, List, [], ◌∷◌, length, replicate, ◌==◌, not,
  if◌then◌else◌,
}

abbrev pub delimiter : ℕ
delimiter = 0x5c

-- The first name and the remaining name behind the first delimiter, from the start index on.
unfoldable pub split_name : List ℕ → List ℕ × List ℕ
split_name [] = ([], [])
split_name (c ∷ cs) =
    let (first, remaining) = split_name cs in
    if c == delimiter then ([], cs) else (c ∷ first, remaining)

unfoldable pub parse_name : List ℕ → List ℕ × List ℕ
parse_name [] = ([], [])
parse_name (c ∷ cs) = if c == delimiter then split_name cs else split_name (c ∷ cs)

abbrev pub has_delimiter_first : List ℕ → Bool
has_delimiter_first [] = false
has_delimiter_first (c ∷ cs) = c == delimiter

-- The loop of `ObCreateObject`, from the last first name on; `fuel` bounds its rounds. `none` is
-- STATUS_OBJECT_NAME_INVALID, and so is an empty last name.
unfoldable pub last_name : ℕ → List ℕ → List ℕ → Option (List ℕ)
last_name fuel first [] = some first
last_name zero first (c ∷ cs) = none
last_name (suc fuel) first (c ∷ cs) =
    let (first', remaining) = parse_name (c ∷ cs) in
    let rest = last_name fuel first' remaining in
    if has_delimiter_first remaining then none else rest

-- `strncpy` with the length of the name: it stops at the first 0 and fills the rest with zeros.
unfoldable pub copy_name : List ℕ → List ℕ
copy_name [] = []
copy_name (c ∷ cs) =
    let rest = copy_name cs in if c == 0 then replicate (suc (length cs)) 0 else c ∷ rest

abbrev stored : Option (List ℕ) → Option (List ℕ)
stored none = none
stored (some []) = none
stored (some (c ∷ cs)) = some (copy_name (c ∷ cs))

unfoldable pub object_name : List ℕ → Option (List ℕ)
unfolding copy_name
object_name name = stored (last_name (length name) [] name)
