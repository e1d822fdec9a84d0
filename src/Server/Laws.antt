-- ===== src/Server/Laws.antt =====
-- Slots of src/llama_server_runtime.cpp: after a shutdown, and between the cache and the resolver.
use chromo_fold.Prelude.{ℕ, true, false, List, [], ◌∷◌, ◌≡◌, ◌↔◌, refl, ap, elem, arith}
use chromo_fold.Prelude.Map.{contains}
use chromo_fold.Cache.Outcome.{cache_ok}
use chromo_fold.Cache.Types as HostTypes
use chromo_fold.Cache.Create as HostCreate
use chromo_fold.Resolver.Types as DeviceTypes
use chromo_fold.Resolver.Types.{resolver_ok}
use chromo_fold.Resolver.Pages as DevicePages
use chromo_fold.Server.{
  Call, creates, resets, cancels, copies, removes, shifts, appends, executes, shuts_down, step, run,
}
use chromo_fold.Server.Types.{Runtime, success, failure}
use chromo_fold.Server.Slots.{
  slot_create, slot_reset, cancel, sequence_copy, sequence_remove, sequence_shift,
}
use chromo_fold.Server.Batches.{append_layer, execute_batch, shutdown, emptied, passes_audits}

-- A runtime that is shut, with nothing live.
abbrev pub IsShut : HostTypes.Cache → DeviceTypes.Resolver → Runtime → Type 0
IsShut host cuda r =
    (r.shutting_down ≡ true)
    × (r.live_sequences ≡ [])
    × (r.host_cache ≡ host)
    × (r.cuda_resolver ≡ cuda)

step-IsShut :
    (host : HostTypes.Cache) (cuda : DeviceTypes.Resolver) (r : Runtime) (c : Call)
    → IsShut host cuda r
    → IsShut host cuda (step r c)
unfolding slot_create slot_reset cancel sequence_copy sequence_remove sequence_shift append_layer
    execute_batch shutdown
step-IsShut host cuda r (creates id) h = ground arith
step-IsShut host cuda r (resets id) h = ground (arith, ap (elem id) h.1)
step-IsShut host cuda r (cancels id) h = ground (arith, ap (elem id) h.1)
step-IsShut host cuda r (copies source destination b e) h = ground arith
step-IsShut host cuda r (removes id b e) h = ground (arith, ap (elem id) h.1)
step-IsShut host cuda r (shifts id b e delta) h = ground arith
step-IsShut host cuda r (appends id layer token_begin token_count) h = ground arith
step-IsShut host cuda r (executes batch) h = ground arith
step-IsShut host cuda r shuts_down h = ground arith

run-IsShut :
    (host : HostTypes.Cache) (cuda : DeviceTypes.Resolver) (r : Runtime) (cs : List Call)
    → IsShut host cuda r
    → IsShut host cuda (run r cs)
run-IsShut host cuda r [] h = h
run-IsShut host cuda r (c ∷ cs) h = run-IsShut host cuda (step r c) cs (step-IsShut host cuda r c h)

emptied_shut :
    (r : Runtime) → ((emptied r).shutting_down ≡ true) × ((emptied r).live_sequences ≡ [])
unfolding emptied
emptied_shut r = (refl, refl)

shutdown-IsShut :
    (r : Runtime)
    → r.shutting_down ≡ false
    → IsShut (emptied r).host_cache (emptied r).cuda_resolver (shutdown r).0
      × (((shutdown r).1 ≡ success) ↔ (passes_audits (emptied r) ≡ true))
unfolding shutdown
shutdown-IsShut r h = ground (arith, emptied_shut r)

-- After a shutdown, whatever the calls, one after another, the runtime stays shut and without live
-- sequences, and neither the cache nor the resolver changes any more.
pub shutdown_lasts :
    (r : Runtime) (cs : List Call)
    → r.shutting_down ≡ false
    → IsShut (emptied r).host_cache (emptied r).cuda_resolver (run (shutdown r).0 cs)
shutdown_lasts r cs h =
    run-IsShut (emptied r).host_cache (emptied r).cuda_resolver (shutdown r).0 cs
      (shutdown-IsShut r h).0

host_create_refused :
    (id : ℕ) (c : HostTypes.Cache)
    → contains id c.sequences ≡ true
    → cache_ok (HostCreate.sequence_create id c).1 ≡ false
unfolding HostCreate.sequence_create
host_create_refused id c h = ground (arith, h)

-- Where the cache has copied a live sequence to a new number and the device refuses the copy, the
-- call fails, and a slot of that number can afterwards neither be created nor reset.
pub copy_stuck :
    (r : Runtime) (source destination b e : ℕ)
    → r.shutting_down ≡ false
    → elem source r.live_sequences ≡ true
    → elem destination r.live_sequences ≡ false
    → cache_ok (HostCreate.sequence_copy source destination b e r.host_cache).1 ≡ true
    → contains destination
        (HostCreate.sequence_copy source destination b e r.host_cache).0.sequences
      ≡ true
    → resolver_ok (DevicePages.copy_sequence r.cuda_resolver source destination).1 ≡ false
    → ((sequence_copy r source destination b e).1 ≡ failure)
      × ((slot_create (sequence_copy r source destination b e).0 destination).1 ≡ failure)
      × ((slot_reset (sequence_copy r source destination b e).0 destination).1 ≡ failure)
unfolding sequence_copy slot_create slot_reset
copy_stuck r source destination b e s l d h c v = ground (
  arith,
  host_create_refused destination (HostCreate.sequence_copy source destination b e r.host_cache).0
      c,
)
