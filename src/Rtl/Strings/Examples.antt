-- ===== src/Rtl/Strings/Examples.antt =====
-- The operations of nboxkrnl/rtl/strings.cpp at concrete strings.
use nboxkrnl.Prelude.{ℕ, ◌+◌, ◌*◌, ◌≤◌, ◌<◌, ◌≡◌, ◌⊎◌, arith, List, [], ◌∷◌, ◌++◌, length, map}
use nboxkrnl.Rtl.Status.{success, buffer_too_small}
use nboxkrnl.Rtl.Strings.{
  CountedString, append_unicode_string, multi_byte_to_unicode, unicode_to_multi_byte,
}
use nboxkrnl.Rtl.Strings.Contents.{
  unicode_contents, IsUnicode, append_unicode_string-unicode_contents,
}
use nboxkrnl.Rtl.Strings.Multibyte.{ascii_or, unicode_to_multi_byte-multi_byte_to_unicode}

abbrev path : CountedString
path = record { length = 2; maximum_length = 6; buffer = b'D' ∷ b':' ∷ 0 ∷ 0 ∷ 0 ∷ 0 ∷ [] }

abbrev name : CountedString
name = record { length = 2; maximum_length = 4; buffer = b'a' ∷ b'b' ∷ 0 ∷ 0 ∷ [] }

append_unicode_string-unicode_contents_example :
    IsUnicode (append_unicode_string path name).1
    × ((2 + 2 ≤ 6)
          × ((append_unicode_string path name).0 ≡ success)
          × (unicode_contents (append_unicode_string path name).1
              ≡ unicode_contents path ++ unicode_contents name)
        ⊎ (6 < 2 + 2)
          × ((append_unicode_string path name).0 ≡ buffer_too_small)
          × ((append_unicode_string path name).1 ≡ path))
append_unicode_string-unicode_contents_example =
    append_unicode_string-unicode_contents path name (ground arith) (ground arith)

abbrev memory : List ℕ
memory = 9 ∷ 9 ∷ []

abbrev bytes : List ℕ
bytes = b'a' ∷ 0xe4 ∷ []

unicode_to_multi_byte-multi_byte_to_unicode_example :
    ((multi_byte_to_unicode 8 bytes).1 ≡ length bytes * 2)
    × (unicode_to_multi_byte 0xac (length bytes) (multi_byte_to_unicode 8 bytes).0
        ≡ (map (ascii_or 0xac) bytes, length bytes))
unicode_to_multi_byte-multi_byte_to_unicode_example =
    unicode_to_multi_byte-multi_byte_to_unicode 0xac 8 bytes (ground arith) (ground arith)

abbrev text : List ℕ
text = b'x' ∷ b'b' ∷ b'e' ∷ []
