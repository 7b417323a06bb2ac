-- ===== src/Ob/Names/Paths.antt =====
-- Paths of names between delimiters, and what nboxkrnl/ob makes of them.
use nboxkrnl.Prelude.{
  ℕ, zero, suc, ◌≤◌, ◌<◌, ◌≡◌, ◌≢◌, refl, ap, sym, ◌∙◌, arith, true, false, none, some, List, [],
  ◌∷◌, ◌++◌, length, length-append, append_assoc, ◌==◌,
}
use nboxkrnl.Ob.Names.{
  delimiter, split_name, parse_name, has_delimiter_first, last_name, copy_name, stored, object_name,
}

abbrev pub IsPlain : List ℕ → Type 0
IsPlain [] = Unit {0}
IsPlain (c ∷ cs) = (c ≢ delimiter) × IsPlain cs

-- A name of an object or of a directory: it is not empty and has no delimiter.
abbrev pub IsName : List ℕ → Type 0
IsName n = (0 < length n) × IsPlain n

abbrev pub AreNames : List (List ℕ) → Type 0
AreNames [] = Unit {0}
AreNames (n ∷ ns) = IsName n × AreNames ns

-- A delimiter in front of each name.
abbrev pub path : List (List ℕ) → List ℕ
path [] = []
path (n ∷ ns) = delimiter ∷ (n ++ path ns)

abbrev pub last : List ℕ → List (List ℕ) → List ℕ
last n [] = n
last n (m ∷ ms) = last m ms

-- What `ObpParseName` leaves of a path behind its first name: the other names without the first
-- delimiter.
abbrev tail_path : List (List ℕ) → List ℕ
tail_path [] = []
tail_path (n ∷ ns) = n ++ path ns

split_name-path :
    (n : List ℕ) (ns : List (List ℕ)) → IsPlain n → split_name (n ++ path ns) ≡ (n, tail_path ns)
unfolding split_name
split_name-path [] [] p = refl
split_name-path [] (m ∷ ms) p = ground arith
split_name-path (c ∷ cs) ns p =
    let rest = split_name-path cs ns p.1 in
    let other : c == delimiter ≡ false = grind (arith, p.0) in rw (other, split_name) (rw rest refl)

-- A name and what follows it, where that is empty or starts with a delimiter.
split_name-append : (n rest : List ℕ) → IsPlain n → split_name (n ++ (delimiter ∷ rest)) ≡ (n, rest)
unfolding split_name
split_name-append [] rest p = ground arith
split_name-append (c ∷ cs) rest p =
    let later = split_name-append cs rest p.1 in
    let other : c == delimiter ≡ false = grind (arith, p.0) in
    rw (other, split_name) (rw later refl)

parse_name-plain : (n rest : List ℕ) → IsName n → parse_name (n ++ rest) ≡ split_name (n ++ rest)
unfolding parse_name
parse_name-plain [] rest (l, p) = ground arith
parse_name-plain (c ∷ cs) rest (l, p) =
    let other : c == delimiter ≡ false = grind (arith, p.0) in rw (other, parse_name) refl

-- `ObpParseName` takes the first name off a path, with or without a delimiter in front.
parse_name-path :
    (n : List ℕ) (ns : List (List ℕ))
    → IsName n
    → (parse_name (path (n ∷ ns)) ≡ (n, tail_path ns))
      × (parse_name (tail_path (n ∷ ns)) ≡ (n, tail_path ns))
unfolding parse_name
parse_name-path n ns h =
    (split_name-path n ns h.1, parse_name-plain n (path ns) h ∙ split_name-path n ns h.1)

has_delimiter_first-tail_path :
    (ns : List (List ℕ)) → AreNames ns → has_delimiter_first (tail_path ns) ≡ false
has_delimiter_first-tail_path [] h = refl
has_delimiter_first-tail_path ([] ∷ ns) h = ground (arith, h)
has_delimiter_first-tail_path ((c ∷ cs) ∷ ns) h = grind (arith, h.0.1.0)

-- The loop of `ObCreateObject`, one round.
last_name-round :
    (fuel : ℕ) (first name n remaining : List ℕ)
    → 0 < length name
    → parse_name name ≡ (n, remaining)
    → has_delimiter_first remaining ≡ false
    → last_name (suc fuel) first name ≡ last_name fuel n remaining
unfolding last_name
last_name-round fuel first [] n remaining l e d = ground arith
last_name-round fuel first (c ∷ cs) n remaining l e d = rw (e, last_name) (rw d refl)

last_name_bad :
    (fuel : ℕ) (first name n remaining : List ℕ)
    → 0 < length name
    → parse_name name ≡ (n, remaining)
    → has_delimiter_first remaining ≡ true
    → last_name (suc fuel) first name ≡ none
unfolding last_name
last_name_bad fuel first [] n remaining l e d = ground arith
last_name_bad fuel first (c ∷ cs) n remaining l e d = rw (e, last_name) (rw d refl)

last_name_same :
    (fuel : ℕ) (first name other : List ℕ)
    → 0 < length name
    → 0 < length other
    → parse_name name ≡ parse_name other
    → last_name (suc fuel) first name ≡ last_name (suc fuel) first other
unfolding last_name
last_name_same fuel first [] other l m e = ground arith
last_name_same fuel first (c ∷ cs) [] l m e = ground arith
last_name_same fuel first (c ∷ cs) (d ∷ ds) l m e = rw (e, last_name) refl

name_first : (n rest : List ℕ) → IsName n → has_delimiter_first (n ++ rest) ≡ false
name_first [] rest h = ground (arith, h)
name_first (c ∷ cs) rest h = grind (arith, h.1.0)

last_name-tail_path :
    (fuel : ℕ) (first : List ℕ) (ns : List (List ℕ))
    → AreNames ns
    → length ns ≤ fuel
    → last_name fuel first (tail_path ns) ≡ some (last first ns)
last_name-tail_path fuel first [] h l = unfold last_name in refl
last_name-tail_path zero first (n ∷ ns) h l = ground arith
last_name-tail_path (suc fuel) first (n ∷ ns) h l =
    last_name-round fuel first (tail_path (n ∷ ns)) n (tail_path ns)
      (omega (arith, h.0.0, length-append n (path ns))) (parse_name-path n ns h.0).1
      (has_delimiter_first-tail_path ns h.1)
    ∙ last_name-tail_path fuel n ns h.1 (omega arith)

length-path : (ns : List (List ℕ)) → length ns ≤ length (path ns)
length-path [] = omega arith
length-path (n ∷ ns) = omega (arith, length-append n (path ns), length-path ns)

-- No CHAR is 0.
abbrev pub HasNoNul : List ℕ → Type 0
HasNoNul [] = Unit {0}
HasNoNul (c ∷ cs) = (c ≢ 0) × HasNoNul cs

copy_name-HasNoNul : (n : List ℕ) → HasNoNul n → copy_name n ≡ n
unfolding copy_name
copy_name-HasNoNul [] z = refl
copy_name-HasNoNul (c ∷ cs) z =
    let nonzero : c == 0 ≡ false = grind (arith, z.0) in
    rw (nonzero, copy_name) (ap (λ l. c ∷ l) (copy_name-HasNoNul cs z.1))

last-stored :
    (n : List ℕ) (ns : List (List ℕ))
    → IsName n
    → AreNames ns
    → HasNoNul (last n ns)
    → stored (some (last n ns)) ≡ some (last n ns)
last-stored [] [] h hs z = ground (arith, h)
last-stored (c ∷ cs) [] h hs z = ap some (copy_name-HasNoNul (c ∷ cs) z)
last-stored n (m ∷ ms) h hs z = last-stored m ms hs.0 hs.1 z

-- The name that ObCreateObject stores in an object is the last one of the path of names, where that has no CHAR 0.
pub object_name-path :
    (n : List ℕ) (ns : List (List ℕ))
    → IsName n
    → AreNames ns
    → HasNoNul (last n ns)
    → object_name (path (n ∷ ns)) ≡ some (last n ns)
unfolding object_name
object_name-path n ns h hs z =
    ap stored (
      last_name-round (length (n ++ path ns)) [] (path (n ∷ ns)) n (tail_path ns) (omega arith)
        (parse_name-path n ns h).0 (has_delimiter_first-tail_path ns hs)
      ∙ last_name-tail_path (length (n ++ path ns)) n ns hs
          (omega (arith, length-append n (path ns), length-path ns)))
    ∙ last-stored n ns h hs z

-- The rounds end at a name that two delimiters follow.
last_name-doubled :
    (fuel : ℕ) (first n : List ℕ) (ns : List (List ℕ)) (rest : List ℕ)
    → IsName n
    → AreNames ns
    → length ns < fuel
    → last_name fuel first (n ++ (path ns ++ (delimiter ∷ delimiter ∷ rest))) ≡ none
last_name-doubled zero first n ns rest h hs l = ground arith
last_name-doubled (suc fuel) first n [] rest h hs l =
    last_name_bad fuel first (n ++ (delimiter ∷ delimiter ∷ rest)) n (delimiter ∷ rest)
      (omega (arith, h.0, length-append n (delimiter ∷ delimiter ∷ rest)))
      (parse_name-plain n _ h ∙ split_name-append n (delimiter ∷ rest) h.1) refl
last_name-doubled (suc fuel) first n (m ∷ ms) rest h hs l =
    let after = (m ++ path ms) ++ (delimiter ∷ delimiter ∷ rest) in
    let later = m ++ (path ms ++ (delimiter ∷ delimiter ∷ rest)) in
    let same : after ≡ later = append_assoc m (path ms) (delimiter ∷ delimiter ∷ rest) in
    last_name-round fuel first (n ++ (delimiter ∷ after)) n after
      (omega (arith, h.0, length-append n (delimiter ∷ after)))
      (parse_name-plain n _ h ∙ split_name-append n after h.1)
      (ap has_delimiter_first same ∙ name_first m _ hs.0)
    ∙ ap (last_name fuel n) same
    ∙ last_name-doubled fuel n m ms rest hs.0 hs.1 (omega arith)

-- `ObCreateObject` refuses a path in which two delimiters follow each other, whatever comes behind
-- them.
object_name-doubled :
    (n : List ℕ) (ns : List (List ℕ)) (rest : List ℕ)
    → IsName n
    → AreNames ns
    → object_name (path (n ∷ ns) ++ (delimiter ∷ delimiter ∷ rest)) ≡ none
unfolding object_name parse_name split_name
object_name-doubled n ns rest h hs =
    let twice = delimiter ∷ delimiter ∷ rest in
    let same : (n ++ path ns) ++ twice ≡ n ++ (path ns ++ twice) = append_assoc n (path ns) twice in
    let fuel = length ((n ++ path ns) ++ twice) in
    ap stored (
      ap (λ name. last_name (suc fuel) [] (delimiter ∷ name)) same
      ∙ last_name_same fuel [] (delimiter ∷ (n ++ (path ns ++ twice))) (n ++ (path ns ++ twice))
          (omega arith) (omega (arith, h.0, length-append n (path ns ++ twice)))
          (sym (parse_name-plain n (path ns ++ twice) h))
      ∙ last_name-doubled (suc fuel) [] n ns rest h hs (
          omega
            (arith, length-append (n ++ path ns) twice, length-append n (path ns), length-path ns)))
