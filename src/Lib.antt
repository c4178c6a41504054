-- ===== src/Lib.antt =====
-- DXR Tier 1.1 for NVIDIA Pascal: a user-mode D3D12 layer that presents a device of ray tracing
-- tier 1.0 as one of tier 1.1. This library models the parts of proxy/ that decide what is safe:
-- when a buffer may be used again, where descriptors go, which hit group arguments a shader can
-- use, which subobjects a rebuilt state object has, what a pipeline stream carries, whether a
-- shader's container says it uses RayQuery, which buffer an address lies in, how large a local root
-- signature may be, and what is known of the acceleration structures that a dispatch traces.
--
-- The parts, and how they stand to the code:
-- - Base: shared names, Boolean tests, lists under native indices, association lists.
-- - GpuHold (proxy/gpu_hold.cpp): `State` is the struct of that name, and `use_of`, `after_submit`,
--   `submitted_once`, `detach` and `busy` are `Use`, `AfterSubmit`, `SubmittedOnce`, `Detach` and
--   `Busy`. A mutex makes each call one step; `run` is a history of calls, each with what the
--   driver answers in it. Safety follows one submission through a history (Recording, Coverage and
--   Holding are about the stamps that stand for it), Retire the bookkeeping that lets a buffer
--   become idle (Tracking is about each operation).
-- - HeapReserve (proxy/heap_reserve.cpp, proxy/heap_reserve.h): `range` is `Range`, `range_in` its
--   part in one reserve, `place` is `Place`, `extra_descriptors` the size that `Create` adds. The
--   code asks gpu_hold whether an entry is busy; here that answer is the argument `busy`. Packing
--   is about the order of ranges, Linking about the map from views to ranges, Sound and Ranges
--   about both together; InFlight puts gpu_hold's answer in the place of `busy`.
-- - TraceArgs (proxy/trace_args.cpp, proxy/trace_args.h): `eval` is `Eval` over sets of 32-bit
--   words, `pairs` is `Pairs`, `merge` is `Merge`, `literal` is `Literal`. Bits, Submasks and Sets
--   are about the sets, Soundness about one operation as the code computes it, Words about the
--   operations as they are defined, Dispatch about whole graphs, Merging and Order about the results.
-- - StateObject (proxy/state_object_cache.cpp): `append`, `has_additions_flag`,
--   `strip_additions_flag` and `desc_of` are `Append`, `HasAdditionsFlag`, `StripAdditionsFlag`
--   and `Desc`. Append is about the working array, Shape and Compaction about the final
--   one, where an association has the caller's pointer until a fixup is applied to it.
-- - PsoStream (proxy/pso_stream.cpp): `walk` is `Walk` over the bytes of a stream, `Sdk` what the
--   D3D12 headers settle. Written is about streams as the CD3DX12 helpers write them, Reported
--   about what is reported of one.
-- - DxilScan (proxy/dxil_scan.cpp): `feature_flags` and `uses_ray_query` over a memory of bytes.
-- - ResTracker (proxy/res_tracker.cpp): `note`, `find` and `count` over the ordered map.
-- - SceneBind (proxy/scene_bind.cpp): `note_heap`, `note_srv` and `note_overwrite`; `each_in` is the
--   walk `EachIn` either way. Copying is `NoteCopy`; Finding is `Lookup`, `LookupSlot` and
--   `Enumerate`. Erase is about heaps, Runs about copies, Slots about lookups.
-- - AsTracker (proxy/as_tracker.cpp, proxy/as_tracker.h): `State` holds the file's globals. Parse is
--   `ParseLocked`; Builds is `NoteBuild`, the history of builds and which structures are live; Reads
--   is the reads of instances and the builds remembered (`AfterSubmit`, `NoteInstances`); Queries is
--   `BringToBuild` and what callers ask; Copies is `NoteCopy`; Decodes is `ApplyDecoded`; Records is
--   `TableWouldBeWrong` and the tables; Classes is `GeometryLabels` and `PairClasses`; Steps has all
--   calls as one machine. A build asks ResTracker for its instance buffer, as the code does. Slots,
--   Answers, Merging and Table are about the records' constants, History about the trimmed
--   history, Freshness, Waits and Taken about reads and fences, Brought about `BringToBuild`, Cloned
--   about copies, Remember, Kept, Calls
--   and Reread about the builds remembered, Labels and Pairing about the records that hits reach.
-- - AsDecode (proxy/as_decode.cpp): `note`, `after_submit`, `drop_unsubmitted` and `bring` are `Note`,
--   `AfterSubmit`, `DropUnsubmitted` and `Bring`, which hands the decodes to AsTracker. Ready is about
--   the size queries, Settling about the end of the wait.
-- - LrsLimit (proxy/lrs_limit.h): `fits`, and the rule of that file's comment in Layout.
-- Each part's tests are in a module Tests below it.
--
-- Bounds and fuel: 32-bit words wrap where the code computes in 32 bits; 64-bit addresses and fence
-- values do not, but for the end test of `find`. `popcount_from` and `submasks_from` have as much
-- fuel as the word they count down from, `eval` the code's own limit of 64 levels, and the walk of
-- a stream a round for each byte, each round taking at least one. `bring_to_build` has the code's own
-- limit of eight copies to follow, `pair_runs` two rounds for each range.
--
-- Not modelled: the device and queue interfaces and their hooks, the text of shaders and the
-- regular expressions that read it, files, the log, and the deep copy of names and bytecode.
pub mod Base
pub mod AsDecode
pub mod AsTracker
pub mod DxilScan
pub mod GpuHold
pub mod HeapReserve
pub mod LrsLimit
pub mod PsoStream
pub mod ResTracker
pub mod SceneBind
pub mod StateObject
pub mod TraceArgs
