-- ===== src/Lib.antt =====
-- MPGC is a garbage collector for a persistent heap that several processes share. A collector
-- thread per process marks the live objects in a bitmap, fed by work queues, and sweeps what is not
-- marked into the free lists from which the allocator serves the mutators. This library models
-- parts of it and proves them correct.
--
-- The parts, and where they stand:
-- MarkBitmap is class `mark_bitmap` of include/mpgc/gc_thread.h. `MarkBitmap/Word` has the masks
-- and indices of a bitmap word, `MarkBitmap/Defs` the record of the arrays and the operations that
-- set, clear and test bits, named as in the source (`mark_end_first` is `_mark_end_first`, and
-- `mark_begin_then_end` is `_mark_begin_first`, on the word offsets that the public forms compute),
-- `MarkBitmap/Scan` the searches that sweeping makes. `MarkBitmap/Zeros` defines the compiler's
-- `__builtin_clzl` and `__builtin_ctzl`, `MarkBitmap/Array` reads an array as bits.
-- Tracing is `mark_black` and `empty_collector_stack` of src/gc_thread.cpp (`Tracing/Collector`)
-- with the map of contingent pointers of include/mpgc/weak_ctrl_map.h (`Tracing/CtrlMap`).
-- `Tracing/Graph` says which objects are live, without the code. `Tracing/Marks` is what tracing
-- needs of the bitmap, and `Tracing/Bitmap` shows that the mark bitmap gives it. Tracing is as it is
-- built without assertions, which ask that pointers and descriptors are valid.
-- Prelude has the names and lemmas that all parts share, and the arithmetic of bits.
-- LocalPool is the allocation of an object in src/gc_skiplist_allocator.cpp: `alloc`,
-- `get_from_local`, `put_to_local` and what they call. `LocalPool/Align` has `align_size_up` and
-- `required_padding`, `LocalPool/Defs` the thread's pool as an association list of chunk lists, the
-- heap as a function from word addresses, and the operations. The global free lists are a
-- parameter, `GlobalPool`, that returns a chunk of at least the size asked for.
--
-- WorkQueue is `work_stealing_wq` of include/mpgc/work_stealing_wq.h, from which tracing takes its
-- objects: `WorkQueue/Defs` has the buffers and the operations, `WorkQueue/Contents` and
-- `WorkQueue/History` compare them with a list, as `Tracing/Collector` has it, and
-- `WorkQueue/Sharing` is what passes between processes.
-- Descriptor is the object descriptors of include/mpgc/gc_desc.h and src/gc_desc.cpp, which tell
-- tracing where an object's pointers are. `Descriptor/Field` is `bits::field` of
-- ruts/include/ruts/bit_field.h, `Descriptor/Defs` what is read from a descriptor's word,
-- `Descriptor/Collector` how `to_descriptor` chooses and writes it, `Descriptor/Header` its check
-- bits and flags. External descriptors are looked up by the word that points to them; where they
-- are allocated is a parameter, `ExternalHeap`.
-- Vector is `gc_basic_vector` of include/mpgc/gc_vector.h: `Vector/Arrays` has the arrays and the
-- algorithms of the C++ library that change them, `Vector/Defs` the operations, `Vector/History` the
-- calls of a client, on a vector and on a list, `Vector/Refines` the comparison. A capacity grows by
-- half until it is large enough, with as many rounds for fuel as elements are asked for; sizes are
-- below 2 ^ 52. Elements are of a type that is `zero_init_okay`, so that a new array's spare elements
-- are the default value because the memory is zeroed; for other types the constructor of
-- include/mpgc/gc_array.h leaves the last of them as it is. `shrink_to_fit` does not compile.
--
-- Strings is `gc_basic_string` of include/mpgc/gc_string.h, on top of Vector: `Strings/Defs` has the
-- operations that change a string, `Strings/Search` the searches, `Strings/Holds` the text that a string
-- stands for, `Strings/History` the calls of a client. Positions and the lengths of ranges are
-- integers, as `size_type` is signed, with -1 for `npos`; a sum that leaves 63 bits and a range that
-- `std::move` is not defined for are a fault. The loops of the searches run over the positions that are
-- left.
-- Handshake is the signals by which a collector thread tells the mutators its phase, of
-- src/gc_handshake.cpp and include/mpgc/gc_handshake.h, and the write barrier of
-- include/mpgc/write_barrier.h: `Handshake/Defs` has the handlers, the scan of the stack and the
-- barrier, `Handshake/Deferral` is about signals that are put off, `Handshake/Rounds` about a
-- handshake with all threads, `Handshake/Scan` about the stack, and `Handshake/Barrier` about the
-- pointers that the write barrier keeps; the assertions that the barrier starts with are
-- `has_descriptors`. A thread's stack is a list of words,
-- and the tests on words, which include/mpgc/offset_ptr.h has, are a parameter, `Words`.
-- MarkBuffer is what Handshake has as the list of a thread's marked pointers: `mark_buffer` of
-- include/mpgc/mark_buffer.h over `sesd_queue` of ruts/include/ruts/sesd_queue.h. `MarkBuffer/Memory`
-- is the memory that its buffers are linked through, with an allocator as a parameter,
-- `MarkBuffer/Defs` has the operations, `MarkBuffer/Queue` and `MarkBuffer/Tail` compare the linked
-- entries with a list, `MarkBuffer/Steps`, `MarkBuffer/Reads` and `MarkBuffer/Emptiness` the elements,
-- `MarkBuffer/Faults` is about freed memory. `clear` has any number of entries or more for fuel.
-- OffsetPtr is the word of a pointer, `base_offset_ptr` of include/mpgc/offset_ptr.h: `OffsetPtr/Defs`
-- has its parts and the tests on it, by the same names (`is_heap_address` is `is_valid(uint8_t *)`,
-- `offset_of` is `offset()`), `OffsetPtr/Parts` and `OffsetPtr/Values` what they are in numbers,
-- `OffsetPtr/Pointers` and `OffsetPtr/Special` which words are pointers and of which kind, and
-- `OffsetPtr/Scanned` fills the `Words` of Handshake. A heap has at most 2 ^ 52 bytes, which are all that
-- an offset can name.
-- BumpSlots is the free list of include/mpgc/bump_allocation_slots.h: `BumpSlots/Defs` has its
-- operations, with the read and the exchange of `acquire_slot` also apart, `BumpSlots/FreeList` is about
-- one process and `BumpSlots/Reuse` about two. A slot number is a record of its two halves.
--
-- A 64-bit word is a natural number below 2 ^ 64. An access out of an array is `none`, and theorems
-- say when it does not happen. Atomic operations are single steps of one thread: what other threads
-- do between them is modelled only for a signal, for a mark buffer and for the free slots. Loops are
-- recursions on fuel: the search for a used word has the number of words left for fuel, and tracing
-- has any number above its work, which is the entries of the queue and of the map and twice the
-- pointer fields of objects that are not marked yet.
--
-- Not modelled: the barriers between processes and the recovery of the work of dead processes, the
-- lists of free chunks, the pointer classes and other containers for clients, the templates that find the
-- fields of a type when it is compiled, statistics, the files that hold the heap, and what sweeping
-- does to weak pointers.
pub mod Prelude
pub mod MarkBitmap
pub mod Tracing
pub mod LocalPool
pub mod WorkQueue
pub mod Descriptor
pub mod Vector
pub mod Strings
pub mod MarkBuffer
pub mod OffsetPtr
pub mod BumpSlots
pub mod Handshake
