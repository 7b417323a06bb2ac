-- ===== src/Xc/Sha/Rounds.antt =====
-- The rounds of sha.cpp, which keep only sixteen words and write each new one in the place of the oldest, compute the
-- compression of the standard.
use nboxkrnl.Prelude.{
  ℕ, zero, suc, ◌+◌, ◌-◌, ◌%◌, ◌≤◌, ◌<◌, ◌≡◌, refl, ap, sym, ◌∙◌, arith, List, [], ◌∷◌, ◌++◌, map,
  ltb, true, false, set, get_or, length, length-append, append-nil, append_assoc, le_cases, inl,
  inr,
}
use nboxkrnl.Xc.Sha.{Registers, swap_bytes, round, next_word, rounds}
use nboxkrnl.Xc.Sha.Reference.{following, extend, run_steps, step_at}
use nboxkrnl.Xc.Sha.Functions.{rol_one, round_lem}

module _ {A : Type 0} where
  get_or-append_left :
      (xs ys : List A) (j : ℕ) (d : A) → j < length xs → get_or (xs ++ ys) j d ≡ get_or xs j d
  get_or-append_left [] ys j d h = elim h [ ]
  get_or-append_left (x ∷ xs) ys zero d h = refl
  get_or-append_left (x ∷ xs) ys (suc j) d h = get_or-append_left xs ys j d (omega arith)

  get_or-append_right :
      (xs ys : List A) (j : ℕ) (d : A) → get_or (xs ++ ys) (length xs + j) d ≡ get_or ys j d
  get_or-append_right [] ys j d = rw (zero_add j) refl
    where
      zero_add : (j : ℕ) → 0 + j ≡ j
      zero_add j = omega arith
  get_or-append_right (x ∷ xs) ys j d = rw (suc_add (length xs) j) (get_or-append_right xs ys j d)
    where
      suc_add : (a b : ℕ) → suc a + b ≡ suc (a + b)
      suc_add a b = omega arith

  set-append :
      (xs : List A) (y v : A) (ys : List A) → set (xs ++ (y ∷ ys)) (length xs) v ≡ xs ++ (v ∷ ys)
  set-append [] y v ys = refl
  set-append (x ∷ xs) y v ys = ap (λ l. x ∷ l) (set-append xs y v ys)

-- A circular list of sixteen, read from its middle.
get_or-rotated :
    (xs zs : List ℕ) (i j : ℕ)
    → length xs + length zs ≡ 16
    → length xs ≡ i % 16
    → j < 16
    → get_or (xs ++ zs) ((i + j) % 16) 0 ≡ get_or (zs ++ xs) j 0
get_or-rotated xs zs i j total here h = elim (le_cases (length zs) j) [
  | inl beyond ↦
      let index : (i + j) % 16 ≡ j - length zs = omega arith in
      let turned : j ≡ length zs + (j - length zs) = omega arith in
      ap (λ k. get_or (xs ++ zs) k 0) index
      ∙ get_or-append_left xs zs (j - length zs) 0 (omega arith)
      ∙ sym (get_or-append_right zs xs (j - length zs) 0)
      ∙ ap (λ k. get_or (zs ++ xs) k 0) (sym turned)
  | inr within ↦
      let index : (i + j) % 16 ≡ length xs + j = omega arith in
      ap (λ k. get_or (xs ++ zs) k 0) index
      ∙ get_or-append_right xs zs j 0
      ∙ sym (get_or-append_left zs xs j 0 within)
]

next_word-following :
    (xs zs : List ℕ) (i : ℕ)
    → length xs + length zs ≡ 16
    → length xs ≡ i % 16
    → 16 ≤ i
    → next_word i (xs ++ zs) ≡ following (zs ++ xs)
unfolding next_word following
next_word-following xs zs i total here late =
    let later : ltb i 16 ≡ false = ground arith in
    let now : i + 0 ≡ i = omega arith in
    rw later (
      rw (get_or-rotated xs zs i 13 total here (omega arith)) (
        rw (get_or-rotated xs zs i 8 total here (omega arith)) (
          rw (get_or-rotated xs zs i 2 total here (omega arith)) (
            rw
              (ap (λ k. get_or (xs ++ zs) (k % 16) 0) (sym now)
                ∙ get_or-rotated xs zs i 0 total here (omega arith))
              (rol_one _)))))

written :
    (xs : List ℕ) (y v : ℕ) (ys : List ℕ) (i : ℕ)
    → length xs ≡ i % 16
    → set (xs ++ (y ∷ ys)) (i % 16) v ≡ xs ++ (v ∷ ys)
written xs y v ys i here = ap (λ k. set (xs ++ (y ∷ ys)) k v) (sym here) ∙ set-append xs y v ys

round_step :
    (n i : ℕ) (r : Registers) (block next : List ℕ) (word : ℕ)
    → next_word i block ≡ word
    → set block (i % 16) word ≡ next
    → (rounds (suc n) i r block).0 ≡ (rounds n (suc i) (step_at i word r) next).0
unfolding rounds
round_step n i r block next word e f =
    ap (λ w. (rounds n (suc i) (round i w r) (set block (i % 16) w)).0) e
    ∙ ap (λ l. (rounds n (suc i) (round i word r) l).0) f
    ∙ ap (λ s. (rounds n (suc i) s next).0) (round_lem i word r)

pub late_rounds :
    (n i : ℕ) (r : Registers) (xs zs : List ℕ)
    → length xs + length zs ≡ 16
    → length xs ≡ i % 16
    → 16 ≤ i
    → (rounds n i r (xs ++ zs)).0 ≡ run_steps i (extend n (zs ++ xs)) r
unfolding rounds extend run_steps
late_rounds zero i r xs zs total here late = refl
late_rounds (suc n) i r xs [] total here late = absurd (omega arith)
late_rounds (suc n) i r xs (z ∷ []) total here late =
    let w = following (z ∷ xs) in
    round_step n i r (xs ++ (z ∷ [])) (xs ++ (w ∷ [])) w
      (next_word-following xs (z ∷ []) i total here late) (written xs z w [] i here)
    ∙ late_rounds n (suc i) (step_at i w r) [] (xs ++ (w ∷ []))
        (omega (arith, length-append xs (w ∷ []))) (omega arith) (omega arith)
    ∙ ap (λ l. run_steps (suc i) (extend n l) (step_at i w r)) (append-nil (xs ++ (w ∷ [])))
late_rounds (suc n) i r xs (z ∷ y ∷ zs) total here late =
    let w = following (z ∷ y ∷ (zs ++ xs)) in
    round_step n i r (xs ++ (z ∷ y ∷ zs)) (xs ++ (w ∷ y ∷ zs)) w
      (next_word-following xs (z ∷ y ∷ zs) i total here late) (written xs z w (y ∷ zs) i here)
    ∙ ap (λ l. (rounds n (suc i) (step_at i w r) l).0) (sym (append_assoc xs (w ∷ []) (y ∷ zs)))
    ∙ late_rounds n (suc i) (step_at i w r) (xs ++ (w ∷ [])) (y ∷ zs)
        (omega (arith, length-append xs (w ∷ []))) (omega (arith, length-append xs (w ∷ [])))
        (omega arith)
    ∙ ap (λ l. run_steps (suc i) (extend n (y ∷ l)) (step_at i w r))
        (sym (append_assoc zs xs (w ∷ [])))

-- The first sixteen rounds put the bytes of each word into the other order.
pub early_rounds :
    (n : ℕ) (r : Registers) (done todo : List ℕ)
    → length done + length todo ≡ 16
    → (rounds (length todo + n) (length done) r (done ++ todo)).0
      ≡ (rounds n 16
          (run_steps (length done) (map swap_bytes todo) r)
          (done ++ map swap_bytes todo)).0
unfolding rounds run_steps
early_rounds n r done [] total =
    let here : length done ≡ 16 = omega arith in
    let all : 0 + n ≡ n = omega arith in
    ap (λ k. (rounds k (length done) r (done ++ [])).0) all
    ∙ ap (λ k. (rounds n k r (done ++ [])).0) here
early_rounds n r done (x ∷ xs) total =
    let early : ltb (length done) 16 ≡ true = ground arith in
    let here : length done + 0 ≡ length done = omega arith in
    let next = done ++ (swap_bytes x ∷ []) in
    let grown : length next ≡ suc (length done) =
      omega (arith, length-append done (swap_bytes x ∷ [])) in
    let read : next_word (length done) (done ++ (x ∷ xs)) ≡ swap_bytes x =
      unfold next_word in
      (rw early (
        ap swap_bytes (
          ap (λ k. get_or (done ++ (x ∷ xs)) k 0) (sym here)
          ∙ get_or-append_right done (x ∷ xs) 0 0))) in
    ap (λ k. (rounds k (length done) r (done ++ (x ∷ xs))).0) (suc_add (length xs) n)
    ∙ round_step (length xs + n) (length done) r (done ++ (x ∷ xs)) (done ++ (swap_bytes x ∷ xs))
        (swap_bytes x) read (written done x (swap_bytes x) xs (length done) (omega arith))
    ∙ ap
        (λ l.
          (rounds (length xs + n) (suc (length done)) (step_at (length done) (swap_bytes x) r) l).0)
        (sym (append_assoc done (swap_bytes x ∷ []) xs))
    ∙ ap (λ k. (rounds (length xs + n) k (step_at (length done) (swap_bytes x) r) (next ++ xs)).0)
        (sym grown)
    ∙ early_rounds n (step_at (length done) (swap_bytes x) r) next xs (omega arith)
    ∙ ap
        (λ k.
          (rounds n 16 (run_steps k (map swap_bytes xs) (step_at (length done) (swap_bytes x) r))
            (next ++ map swap_bytes xs)).0)
        grown
    ∙ ap
        (λ l.
          (rounds n 16
            (run_steps (suc (length done)) (map swap_bytes xs)
              (step_at (length done) (swap_bytes x) r))
            l).0)
        (append_assoc done (swap_bytes x ∷ []) (map swap_bytes xs))
  where
    suc_add : (a b : ℕ) → suc a + b ≡ suc (a + b)
    suc_add a b = omega arith
