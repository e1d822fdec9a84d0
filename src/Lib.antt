-- ===== src/Lib.antt =====
-- A model of chromoFold's serving runtimes, which keep requests, sequences and shared pages, and
-- what is proved of it.
--
-- Parts, with the code that each models:
--   Scheduler (src/production_scheduler.cpp, include/chromofold/production_scheduler.h):
--     tenants, workers and requests. Types has the structs; Select the choice of a worker; Admit
--     cf_scheduler_admit; Finish cf_scheduler_complete and cf_scheduler_cancel; Workers
--     registration, circuits, drain and cf_scheduler_plan_scale; Scheduler itself the rest, and
--     `step` and `run` over all calls. Proofs: Selection, Books (the counts of a tenant), Valid,
--     Invariant, Admission, Verdict (what an admission decides), Lifecycle, Plans, Audit, and Phases
--     (the life of a request as an abstract machine).
--   Cache (src/multisequence_cache.cpp, include/chromofold/multisequence_cache.h): sequences
--     over immutable pages that they share by reference counts. Types has the structs; Outcome the
--     monad of code that throws; Pages acquire_page and release_page; Order validate_page_order;
--     Auditor audit_locked and maybe_audit; Create creation and copy; Edit removal and shift;
--     Append append, attention dispatch, reclamation and the reads; Speculation begin, commit and
--     rollback; Tensor cf_device_tensor_validate of src/cuda/device_kv_dataplane.cu. Proofs: Holds
--     and Sound (the counts against the references), History, Rollback, AuditLaws, Bounds (the
--     active tails).
--   Distributed (src/distributed_runtime.cpp, include/chromofold/distributed_runtime.h):
--     sequences and layers over several devices. Types has the structs; Place creation, placement,
--     migration and routing; Batch peer links, batches and shutdown. Proofs: Placement, Batches,
--     Routing.
--   Cluster (src/disaggregated_serving.cpp, include/chromofold/disaggregated_serving.h): prefill
--     and decode workers that lease pages. Types has the structs; Keys page keys and tokens; Leases
--     leases and manifests; Route workers, routing, transfers and the audit. Proofs: Laws. A reading
--     of the steady clock is an argument.
--   Security (src/security_release.cpp, include/chromofold/security_release.h): who may do what,
--     and what may be trusted. Types has the structs, Roles and Operations the enumerations;
--     Digest mix64, digest32 and replay_hash; Access creation, peers, grants and rotation;
--     Manifests signatures and releases; Replay tokens and the audit chain. Proofs: Hashing (what
--     the hashes tell apart), Signatures, Peers, Tokens and Chain (runs), Rotation.
--   Resolver (src/cuda/multisequence_cuda_resolver.cu, include/chromofold/
--     multisequence_cuda_resolver.h): the pages in device memory. Types has the structs; Device
--     buffers, checked calls and descriptor tables; Sequences creation and active pages; Publish
--     publication; Pages copies, removals and shifts; Snapshots, Batches and Settle snapshots,
--     batches and reclamation; Overlap a batch's critical sections and launches as steps among other
--     calls; Auditor the audit. Proofs: Held, Flight, Reclaim, Sweep, Still, Counts, Unmoved and
--     Flown (the counts in flight), Invariant, Taken (what a batch takes), Alone (a batch that
--     nothing overlaps), Capacity (descriptor tables). The answers of the CUDA runtime are a part
--     of the state.
--   Server (src/llama_server_runtime.cpp, include/chromofold/llama_server_runtime.h): the slots of
--     a llama.cpp server, over Cache and Resolver. Types has the structs; Slots the life of a slot;
--     Batches tokens, batches and shutdown. Proofs: Laws.
--   Qualification (src/qualification.cpp, include/chromofold/qualification.h): the measurements of
--     a release candidate. Types has the structs; ErrorCodes the names of errors; Record creation
--     and measurements; Evaluate the verdict. Proofs: Percentiles, Verdict.
--   Rc1 (src/rc1_runtime.cpp, include/chromofold/rc1_runtime.h): the evidence for a release
--     candidate. Types has the structs; Evidence the calls; Seen an account of the evidence by
--     the calls alone. Proofs: Verdict. A double, here and in
--     Qualification, is a number of an interface (Qualification.Types.Double), and what is relied
--     on of its rounding is a hypothesis (Qualification.Percentiles.IsCeil95).
--   Prelude has what they share: tests on numbers, lists, machine words, exclusive or, integers,
--     and the maps.
-- The server calls the cache and the resolver, and both call the validation of tensor views; the
-- other parts do not call one another.
--
-- A state is a record with the source's fields, a call a function from a state and the arguments
-- to a state and a result. uint32_t and uint64_t are numbers with their wrap written out
-- (Prelude.Words). A hash map is an association list whose order stands for an order of iteration.
-- An exception is a value (Cache.Outcome) which carries the state as it was when it was thrown.
-- A call that reads and writes its state under one hold of the mutex is one step. Three calls do not:
-- the steps of cf_ms_cuda_execute_batch_async are those of Resolver.Overlap, where a launch, which
-- writes counters without the mutex, is a step of its own; cf_llama_server_execute_batch_async and
-- cf_llama_server_shutdown_async give up their mutex before they call the cache and the resolver, and
-- Server has only runs in which no other call overlaps them. Every loop is structural but one, which
-- doubles a capacity (Resolver.Device.grow): 32 doublings are enough for 32 bits (Resolver.Capacity).
--
-- No call of the cache makes a sealed page: docs/m10-multisequence-cache.md leaves the sealing to a
-- later core. So what is shown of its pages is of any sound cache, as a program that seals would have it;
-- from a fresh cache, sequences have active tails alone.
--
-- Not modelled: null pointers, allocation failure and destruction; the texts of exceptions, of
-- which each is a constructor; a signed overflow of logical_shift; device memory
-- and kernels, integrations, tools.
mod Prelude
pub mod Scheduler
pub mod Cache
pub mod Distributed
pub mod Cluster
pub mod Security
pub mod Resolver
pub mod Server
pub mod Qualification
pub mod Rc1
