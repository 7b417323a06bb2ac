-- ===== src/Ob/Directory/Examples.antt =====
-- A directory of nboxkrnl/ob with one name in it.
use nboxkrnl.Prelude.{ℕ, ◌≡◌, inl, refl, true, false, none, List, [], ◌∷◌, if◌then◌else◌}
use nboxkrnl.Rtl.Compare.{equal_string, equal_units, upper_char}
use nboxkrnl.Ob.Directory.{Directories, is_same_name, follow_link, find_object, insert_object}
use nboxkrnl.Ob.Directory.Lookup.{find_object-insert_object}

abbrev empty : Directories
empty = record {
  buckets = λ d i. [];
  link_target = λ o. none;
  dos_devices = 7;
  drive_letters = λ i. 0;
}

abbrev lower : List ℕ
lower = b'h' ∷ b'd' ∷ []

abbrev upper : List ℕ
upper = b'H' ∷ b'D' ∷ []

same_spelling : is_same_name upper lower ≡ true
unfolding is_same_name equal_string equal_units upper_char
same_spelling = refl

find_object-insert_object_example : find_object (insert_object empty 3 lower 0x40) 3 upper false ≡ (
    if is_same_name upper lower
    then follow_link empty false 0x40
    else find_object empty 3 upper false)
find_object-insert_object_example =
    find_object-insert_object empty 3 lower upper 0x40 false (inl refl)
