-- ===== src/Lib.antt =====
-- The kernel of nboxkrnl, a reimplementation of the kernel of the original Xbox. Its parts are the
-- memory manager (nboxkrnl/mm), the kernel core (nboxkrnl/ke, nboxkrnl/ki), the executive
-- (nboxkrnl/ex), the runtime library (nboxkrnl/rtl), the object and I/O managers (nboxkrnl/ob,
-- nboxkrnl/io), the system services (nboxkrnl/nt) and the code for devices. This library models
-- parts that keep data structures or compute:
-- - Mm/Vad.antt and Mm/Vad/Search.antt: nboxkrnl/mm/vad_tree.hpp and vad_tree.cpp. The global
--   MiVadRoot is the tree argument of each operation and `Tree` is a VAD_NODE pointer, with `nil`
--   for nullptr. Stored heights are integers, because the height of no node is -1. `insert_node`
--   and `insert_vad_node` are the two functions InsertVADNode, whose argument `allocated` says
--   whether ExAllocatePool returns a node and whose `none` is the exception STATUS_NO_MEMORY.
--   `erase_node` is EraseVADNode. The optional pointer to the inserted node is left out. Rotations,
--   Balance, Entries, Order, Removal, Neighbours, Lookup, Conflict, Successor, Descriptors
--   and History hold the proofs.
-- - Mm/Vad/Regions.antt: SplitVAD, CarveVAD and ConstructVAD of the same file, on the same trees. A
--   pointer to a node is the start of the node. Writes, Splits, Cuts, Layout, Carving and Failures
--   hold the proofs.
-- - Ke/DeviceQueue.antt: nboxkrnl/ke/device_queue.cpp. A circular list is the list of its entries
--   from the head of the queue on. The fields of the entries are functions of the entry. The queue
--   lock only raises the IRQL on one processor, so each operation is one step. Order, Withdraw and
--   Busy hold the proofs.
-- - Ke/Dpc.antt: nboxkrnl/ke/dpc.cpp. The lists are as for the device queues. The deferred routines
--   are a parameter, a function on the state of the processor and of the rest of the system. Queue
--   holds the proofs.
-- - Ke/Dispatcher.antt: nboxkrnl/ke/semaphore.cpp, mutant.cpp and event.cpp, and the wait for one
--   object and the wake-up of nboxkrnl/ke/wait.cpp. The wait list is the list of the threads on it.
--   A routine up to the switch to another thread is one step, because it holds the dispatcher lock.
--   Counts and Ownership have the histories of a semaphore and of a mutant; Wakes, Semaphores,
--   Counts, Mutants, Exclusion and Events hold the proofs.
-- - Rtl/Divide.antt: RtlExtendedLargeIntegerDivide of nboxkrnl/rtl/rtl.cpp, on the bits of the
--   dividend as a number below 2 ^ 64. Quotient holds the proofs.
-- - Rtl/Numbers.antt: RtlCharToInteger, RtlUnicodeStringToInteger and RtlIntegerToChar of
--   nboxkrnl/rtl/strings.cpp, in 32-bit arithmetic. RoundTrip holds the proofs.
-- - Rtl/Strings.antt: the counted strings of nboxkrnl/rtl/strings.cpp, with the memory of a buffer
--   as a list of its units. Contents, Texts, Copies and Multibyte hold the proofs.
-- - Rtl/Compare.antt: nboxkrnl/rtl/compare.cpp, RtlEqualString of nboxkrnl/rtl/strings.cpp and the
--   case conversions of nboxkrnl/rtl/rtl.hpp. Strings and Memory hold the proofs.
-- - Rtl/Error.antt: RtlNtStatusToDosError of nboxkrnl/rtl/error.cpp, in Lookup, with its tables in
--   Tables and LongTables. Mapping holds the proofs.
-- - Rtl/Time.antt: RtlExtendedMagicDivide, RtlTimeToTimeFields and RtlTimeFieldsToTime of
--   nboxkrnl/rtl/rtl.cpp. Magic, Dates, Calendar, Days and Inverse hold the proofs.
-- - Xc/Sha.antt: nboxkrnl/xc/sha.cpp. Reference has the standard's SHA-1, with its own round
--   functions, and Bits, Functions, Rounds, Compress, Blocks, Stream and Digest hold the proofs.
-- - Ex/ReadWriteLock.antt: nboxkrnl/ex/rwlock.cpp. Each routine up to its wait or its signal is one
--   step, because interrupts are disabled, and the wait or the signal is another. The event and the
--   semaphore are their signal states and the numbers of the threads on their wait lists. Threads has
--   the threads around the lock and their steps, and Exclusion the proofs.
-- - Ob/Handles.antt: the handle table of nboxkrnl/ob/obp.cpp and its start in ObInitSystem of
--   nboxkrnl/ob/ob.cpp, as a function from the index of an entry to its word. The pool's answers
--   are two Boolean arguments, and `none` is a fault. FreeList, Uses, Operations and History hold
--   the proofs.
-- - Ob/Names.antt: ObpParseName of nboxkrnl/ob/obp.cpp and the choice of the name of an object in
--   ObCreateObject of nboxkrnl/ob/ob.cpp, with its copy by strncpy. Paths holds the proofs.
-- - Ob/Directory.antt: the hash, the lookup and the removal of a name in a directory, of
--   nboxkrnl/ob/obp.cpp, and the insertion into a directory at the end of ObInsertObject of
--   nboxkrnl/ob/ob.cpp. It takes RtlEqualString from Rtl/Compare.antt. Hash and Lookup hold the
--   proofs.
-- Machine words are natural numbers with their wrap-around written out. Four recursions have fuel.
-- KiExecuteDpcQueue has it because a deferred routine can queue further calls; where the routines
-- leave the queue alone, one more than the length of the queue is enough. The digits of
-- RtlIntegerToChar have the room of the buffer in the source, which is enough for every 32-bit
-- value. The loop of ObCreateObject over the parts of a name has the length of the name, and each
-- round takes at least one CHAR off it. The loop of A_SHAUpdate has one more than the number of
-- bytes, and each round takes at least one of them.
-- Not modelled: the operations of the tree of virtual address descriptors that merge and unmap
-- regions, the search for the free region that ConstructVAD stores in MiLastFree, the rest of
-- the runtime library, timers, kernel queues and the scheduler, the wait for several objects
-- (which the source does not implement), KeSetEvent where its wait list is not empty (it then
-- reads fields behind the head of the list), page tables, the reference counts and paths of
-- objects, files, and everything that is assembly or a device register.
pub mod Prelude
pub mod Mm
pub mod Ke
pub mod Ex
pub mod Ob
pub mod Rtl
pub mod Xc
