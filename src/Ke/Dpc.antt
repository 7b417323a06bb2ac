-- ===== src/Ke/Dpc.antt =====
-- nboxkrnl/ke/dpc.cpp: the queue of deferred procedure calls of the processor. A `KDPC` is named by
-- its address, a number. The routines run with interrupts disabled or at HIGH_LEVEL, so each one is a
-- single step; `HalRequestSoftwareInterrupt(DISPATCH_LEVEL)` sets `dispatch_requested`.
pub mod Queue
mod Examples
use nboxkrnl.Prelude.{
  ℕ, zero, suc, Bool, true, false, Option, none, some, List, [], ◌∷◌, ◌++◌, not, ◌&&◌, ◌==◌,
  if◌then◌else◌,
}

-- The fields of a `KDPC` other than its list links.
pub record Dpc : Type 0 where
  pub inserted : Bool
  pub deferred_routine : ℕ
  pub deferred_context : ℕ
  pub system_argument1 : ℕ
  pub system_argument2 : ℕ

-- The processor block and the DPC objects.
pub record Prcb : Type 0 where
  pub dpc_list : List ℕ
  pub routine_active : Bool
  pub interrupt_requested : Bool
  pub dispatch_requested : Bool
  pub dpcs : ℕ → Dpc

abbrev pub write : (ℕ → Dpc) → ℕ → Dpc → ℕ → Dpc
write f e x d = if d == e then x else f d

unfoldable pub unlink : ℕ → List ℕ → List ℕ
unlink e [] = []
unlink e (d ∷ ds) = if d == e then ds else d ∷ unlink e ds

unfoldable pub initialize_dpc : Prcb → ℕ → ℕ → ℕ → Prcb
initialize_dpc p d routine context = record p {
  dpcs = write p.dpcs d (record (p.dpcs d) {
    inserted = false;
    deferred_routine = routine;
    deferred_context = context;
  });
}

unfoldable pub request_interrupt : Prcb → Prcb
request_interrupt p =
    if not p.routine_active && not p.interrupt_requested
    then record p { interrupt_requested = true; dispatch_requested = true }
    else p

unfoldable pub insert_queue_dpc : Prcb → ℕ → ℕ → ℕ → Prcb × Bool
insert_queue_dpc p d argument1 argument2 = if (p.dpcs d).inserted then (p, false) else (
  request_interrupt (record p {
    dpcs = write p.dpcs d (record (p.dpcs d) {
      inserted = true;
      system_argument1 = argument1;
      system_argument2 = argument2;
    });
    dpc_list = p.dpc_list ++ (d ∷ []);
  }),
  true,
)

-- `Inserted` is read and not written.
unfoldable pub remove_queue_dpc : Prcb → ℕ → Prcb × Bool
remove_queue_dpc p d =
    if (p.dpcs d).inserted then (record p { dpc_list = unlink d p.dpc_list }, true) else (p, false)

-- The head of the list comes off, and its routine runs.
unfoldable pub retire : Prcb → ℕ → List ℕ → Prcb
retire p d ds = record p {
  dpc_list = ds;
  dpcs = write p.dpcs d (record (p.dpcs d) { inserted = false });
  routine_active = true;
}

-- What the deferred routines do is a parameter: `call d dpc` runs the routine of `d` on the state of
-- the processor and of the rest of the system, `W`.
module _ {ℓ} {W : Type ℓ} (call : ℕ → Dpc → Prcb × W → Prcb × W) where
  abbrev pub deactivate : Prcb × W → Prcb × W
  deactivate (p, w) = (record p { routine_active = false }, w)

  abbrev pub finish : Prcb × W → Prcb × W
  finish (p, w) = (record p { interrupt_requested = false }, w)

  unfoldable pub execute_step : Prcb × W → List ℕ → Option (Prcb × W)
  execute_step (p, w) [] = none
  execute_step (p, w) (d ∷ ds) =
      let q = retire p d ds in some (deactivate (call d (q.dpcs d) (q, w)))

  abbrev pub execute_next :
      (Prcb × W → Option (Prcb × W)) → Prcb × W → Option (Prcb × W) → Option (Prcb × W)
  execute_next rest s none = some (finish s)
  execute_next rest s (some t) = rest t

  -- `KiExecuteDpcQueue`; `fuel` bounds the number of calls, and `none` means that it ran out.
  unfoldable pub execute_dpc_queue : ℕ → Prcb × W → Option (Prcb × W)
  execute_dpc_queue zero s = none
  execute_dpc_queue (suc fuel) s =
      execute_next (execute_dpc_queue fuel) s (execute_step s s.0.dpc_list)
