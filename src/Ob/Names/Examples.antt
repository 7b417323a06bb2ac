-- ===== src/Ob/Names/Examples.antt =====
-- Object names of nboxkrnl/ob at a concrete path.
use nboxkrnl.Prelude.{◌≡◌, some, List, ℕ, [], ◌∷◌, arith}
use nboxkrnl.Ob.Names.{object_name}
use nboxkrnl.Ob.Names.Paths.{path, last, IsName, AreNames, object_name-path}

abbrev device : List ℕ
device = b'D' ∷ b'e' ∷ b'v' ∷ []

abbrev disk : List ℕ
disk = b'H' ∷ b'd' ∷ []

device-IsName : IsName device
device-IsName = (ground arith, ground arith)

disk-AreNames : AreNames (disk ∷ [])
disk-AreNames = ((ground arith, ground arith), tt)

object_name-path_example : object_name (path (device ∷ disk ∷ [])) ≡ some (last device (disk ∷ []))
object_name-path_example =
    object_name-path device (disk ∷ []) device-IsName disk-AreNames (ground arith)
