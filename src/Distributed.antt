-- ===== src/Distributed.antt =====
-- src/distributed_runtime.cpp: sequences over several devices. Each cf_distributed_ function is a
-- function on the runtime, atomic as under its mutex; null pointers and the stream argument, which
-- the code does not use, are left out. The proofs are in the modules below.
pub mod Types
pub mod Place
pub mod Batch
pub mod Placement
pub mod Batches
pub mod Routing
mod Examples
use chromo_fold.Prelude.{ℕ, Option, List, [], ◌∷◌}
use Types.{BatchItem, Counters, Error, Runtime}
use Place.{place_sequence, migrate_sequence}
use Batch.{enable_peer_links, execute_batch, shutdown}

abbrev pub get_counters : Runtime → Counters
get_counters r = r.counters

abbrev pub last_error : Runtime → Option Error
last_error r = r.error

-- The calls that change the runtime.
pub data Call : Type 0 where
  places : ℕ → Call
  migrates : ℕ → ℕ → Call
  links : Call
  executes : List BatchItem → Call
  shuts : Call

pub step : Runtime → Call → Runtime
step r (places id) = (place_sequence r id).0
step r (migrates id destination) = (migrate_sequence r id destination).0
step r links = (enable_peer_links r).0
step r (executes items) = (execute_batch r items).0
step r shuts = shutdown r

pub run : Runtime → List Call → Runtime
run r [] = r
run r (c ∷ cs) = run (step r c) cs
