-- ===== src/Ke/Dpc/Queue.antt =====
-- The `Inserted` flags of dpc.cpp, and the order in which the deferred calls run.
use nboxkrnl.Prelude.{
  ℕ, zero, suc, ◌<◌, ◌≡◌, refl, ap, ◌∙◌, arith, Bool, true, false, some, List, [], ◌∷◌, ◌++◌, not,
  ◌||◌, ◌==◌, if◌then◌else◌, length, Bool-cases, inl, inr, subst,
}
use nboxkrnl.Ke.Dpc.{
  Dpc, Prcb, write, unlink, request_interrupt, insert_queue_dpc, remove_queue_dpc, retire,
  execute_step, execute_next, execute_dpc_queue,
}

abbrev pub contains : ℕ → List ℕ → Bool
contains d [] = false
contains d (e ∷ es) = e == d || contains d es

abbrev pub IsDistinct : List ℕ → Type 0
IsDistinct [] = Unit {0}
IsDistinct (e ∷ es) = (contains e es ≡ false) × IsDistinct es

-- The flag of each DPC says whether it is in the list, and none is in it twice.
pub record IsLinked (p : Prcb) : Type 0 where
  pub flagged : (d : ℕ) → (p.dpcs d).inserted ≡ contains d p.dpc_list
  pub distinct : IsDistinct p.dpc_list

contains-append : (d e : ℕ) (es : List ℕ) → contains d (es ++ (e ∷ [])) ≡ contains d es || e == d
contains-append d e [] = ground arith
contains-append d e (c ∷ cs) = ground (arith, contains-append d e cs)

IsDistinct-append :
    (e : ℕ) (es : List ℕ) → contains e es ≡ false → IsDistinct es → IsDistinct (es ++ (e ∷ []))
IsDistinct-append e [] n h = (refl, tt)
IsDistinct-append e (c ∷ cs) n h = ground (arith, contains-append c e cs, IsDistinct-append e cs)

contains-unlink : (d : ℕ) (es : List ℕ) → IsDistinct es → contains d (unlink d es) ≡ false
unfolding unlink
contains-unlink d [] h = refl
contains-unlink d (e ∷ es) h = elim (Bool-cases (e == d)) [
  | inl t ↦ rw (t, unlink) (subst (λ c. contains c es ≡ false) (ground arith) h.0)
  | inr t ↦ rw (t, unlink) (rw t (contains-unlink d es h.1))
]

-- `KeInsertQueueDpc` keeps the flags right, and puts a DPC at the end of the list exactly when it was
-- not in it, which is what it returns.
pub insert_queue_dpc-IsLinked :
    (p : Prcb) (d a b : ℕ)
    → IsLinked p
    → let (p', queued) = insert_queue_dpc p d a b in
      IsLinked p'
      × (queued ≡ not (contains d p.dpc_list))
      × (p'.dpc_list ≡ (if contains d p.dpc_list then p.dpc_list else p.dpc_list ++ (d ∷ [])))
unfolding insert_queue_dpc request_interrupt
insert_queue_dpc-IsLinked p d a b h = (
  record {
    flagged = λ e. ground (arith, h.flagged d, h.flagged e, contains-append e d p.dpc_list);
    distinct = ground (arith, h.flagged d, IsDistinct-append d p.dpc_list);
  },
  ground (arith, h.flagged d),
  ground (arith, h.flagged d),
)

-- After `KeRemoveQueueDpc` of a queued DPC the DPC is not in the list, and yet `KeInsertQueueDpc`
-- refuses it and changes nothing.
pub remove_queue_dpc-insert_queue_dpc :
    (p : Prcb) (d a b : ℕ)
    → IsLinked p
    → contains d p.dpc_list ≡ true
    → let (p', removed) = remove_queue_dpc p d in
      (removed ≡ true)
      × (contains d p'.dpc_list ≡ false)
      × (insert_queue_dpc p' d a b ≡ (p', false))
unfolding remove_queue_dpc insert_queue_dpc
remove_queue_dpc-insert_queue_dpc p d a b h c =
    ground (arith, h.flagged d, contains-unlink d p.dpc_list h.distinct)

retire-IsLinked :
    (p : Prcb) (d : ℕ) (ds : List ℕ) → p.dpc_list ≡ d ∷ ds → IsLinked p → IsLinked (retire p d ds)
unfolding retire
retire-IsLinked p d ds e h =
    let distinct' : IsDistinct (d ∷ ds) = subst IsDistinct e h.distinct in
    record {
      flagged = λ c. ground (arith, h.flagged c, ap (contains c) e, distinct'.0);
      distinct = distinct'.1;
    }

retired_dpc :
    (p : Prcb) (d : ℕ) (ds : List ℕ)
    → (retire p d ds).dpcs d ≡ record (p.dpcs d) { inserted = false }
unfolding retire
retired_dpc p d ds = ground arith

module _ {ℓ} {W : Type ℓ} (body : ℕ → Dpc → W → W) where
  -- What running the routines of these DPCs, in this order, makes of the rest of the system.
  pub run_calls : (ℕ → Dpc) → List ℕ → W → W
  run_calls dpcs [] w = w
  run_calls dpcs (d ∷ ds) w = run_calls dpcs ds (body d (record (dpcs d) { inserted = false }) w)

  run_calls-write :
      (dpcs : ℕ → Dpc) (d : ℕ) (ds : List ℕ) (w : W)
      → run_calls (write dpcs d (record (dpcs d) { inserted = false })) ds w ≡ run_calls dpcs ds w
  unfolding run_calls
  run_calls-write dpcs d [] w = refl
  run_calls-write dpcs d (e ∷ es) w =
      run_calls-write dpcs d es _ ∙ ap (λ x. run_calls dpcs es (body e x w)) (ground arith)

  -- Routines that leave the processor block alone.
  abbrev pub calls : ℕ → Dpc → Prcb × W → Prcb × W
  calls d x (p, w) = (p, body d x w)

  abbrev IsFinished : ℕ → Prcb → W → W → Type ℓ
  IsFinished fuel p w v =
      (q : Prcb) × (execute_dpc_queue calls fuel (p, w) ≡ some (q, v))
      × (q.dpc_list ≡ [])
      × (q.interrupt_requested ≡ false)
      × IsLinked q

  execute_dpc_queue_list :
      (fuel : ℕ) (p : Prcb) (w : W) (es : List ℕ)
      → p.dpc_list ≡ es
      → IsLinked p
      → length es < fuel
      → IsFinished fuel p w (run_calls p.dpcs es w)
  unfolding execute_dpc_queue execute_step run_calls retire
  execute_dpc_queue_list zero p w es e h l = elim l [ ]
  execute_dpc_queue_list (suc fuel) p w [] e h l = (
    record p { interrupt_requested = false },
    ap
        (λ ds.
          execute_next calls (execute_dpc_queue calls fuel) (p, w) (execute_step calls (p, w) ds))
        e,
    e,
    refl,
    record { flagged = h.flagged; distinct = h.distinct },
  )
  execute_dpc_queue_list (suc fuel) p w (d ∷ ds) e h l =
      let x : Dpc = record (p.dpcs d) { inserted = false } in
      let p' : Prcb = record (retire p d ds) { routine_active = false } in
      let linked = retire-IsLinked p d ds e h in
      let (q, run, empty, idle, right) =
        execute_dpc_queue_list fuel p' (body d x w) ds refl
          (record { flagged = linked.flagged; distinct = linked.distinct }) (omega arith) in
      (
        q,
        ap
              (λ ds.
                execute_next calls (execute_dpc_queue calls fuel) (p, w)
                  (execute_step calls (p, w) ds))
              e
            ∙ ap (λ y. execute_dpc_queue calls fuel (p', body d y w)) (retired_dpc p d ds)
            ∙ run
            ∙ ap (λ v. some (q, v)) (run_calls-write p.dpcs d ds (body d x w)),
        empty,
        idle,
        right,
      )

  -- With such routines and fuel above the length of the list, `KiExecuteDpcQueue` ends. It has run the
  -- routine of each queued DPC once, from the first to the last, with the arguments of its insertion
  -- and its flag cleared. The list is empty, no DPC interrupt is pending, and the flags are right.
  pub execute_dpc_queue-run_calls :
      (fuel : ℕ) (p : Prcb) (w : W)
      → IsLinked p
      → length p.dpc_list < fuel
      → (q : Prcb) × (execute_dpc_queue calls fuel (p, w) ≡ some (q, run_calls p.dpcs p.dpc_list w))
        × (q.dpc_list ≡ [])
        × (q.interrupt_requested ≡ false)
        × IsLinked q
  execute_dpc_queue-run_calls fuel p w h l = execute_dpc_queue_list fuel p w p.dpc_list refl h l
