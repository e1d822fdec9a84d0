-- ===== src/Server.antt =====
-- src/llama_server_runtime.cpp: the slots of a llama.cpp server, over the host's cache (Cache) and the
-- device's resolver (Resolver). Each cf_llama_server_ function is a function on the runtime; null
-- arguments are left out. A batch and a shutdown give up the mutex before they call the resolver and the
-- cache; here the calls are taken one at a time.
pub mod Types
pub mod Slots
pub mod Batches
pub mod Laws
mod Examples
use chromo_fold.Prelude.{ℕ, Option, List, [], ◌∷◌}
use chromo_fold.Prelude.Int.{ℤ}
use Types.{Batch, Error, Runtime, Stats}
use Slots.{slot_create, slot_reset, cancel, sequence_copy, sequence_remove, sequence_shift}
use Batches.{append_layer, execute_batch, shutdown}

abbrev get_stats : Runtime → Stats
get_stats r = r.stats

abbrev pub last_error : Runtime → Option Error
last_error r = r.error

-- The calls that change the runtime.
pub data Call : Type 0 where
  creates : ℕ → Call
  resets : ℕ → Call
  cancels : ℕ → Call
  copies : ℕ → ℕ → ℕ → ℕ → Call
  removes : ℕ → ℤ → ℤ → Call
  shifts : ℕ → ℕ → ℕ → ℤ → Call
  appends : ℕ → ℕ → ℕ → ℕ → Call
  executes : Batch → Call
  shuts_down : Call

abbrev pub step : Runtime → Call → Runtime
step r (creates id) = (slot_create r id).0
step r (resets id) = (slot_reset r id).0
step r (cancels id) = (cancel r id).0
step r (copies source destination b e) = (sequence_copy r source destination b e).0
step r (removes id b e) = (sequence_remove r id b e).0
step r (shifts id b e delta) = (sequence_shift r id b e delta).0
step r (appends id layer token_begin token_count) =
    (append_layer r id layer token_begin token_count).0
step r (executes batch) = (execute_batch r batch).0
step r shuts_down = (shutdown r).0

abbrev pub run : Runtime → List Call → Runtime
run r [] = r
run r (c ∷ cs) = run (step r c) cs
