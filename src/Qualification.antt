-- ===== src/Qualification.antt =====
-- src/qualification.cpp: a release candidate's measurements and the verdict on them.
pub mod Types
pub mod ErrorCodes
pub mod Record
pub mod Evaluate
pub mod Percentiles
pub mod Verdict
mod Examples
use chromo_fold.Prelude.{ℕ, List, [], ◌∷◌}
use Types.{RequestMeasurement, Runtime}
use Record.{record_request, set_reference_state}

-- The calls that change the runtime.
pub data Call : Type 0 where
  records : RequestMeasurement → Call
  sets : ℕ → ℕ → ℕ → ℕ → Call

abbrev pub step : Runtime → Call → Runtime
step r (records m) = (record_request r m).0
step r (sets pages snapshots leases requests) =
    set_reference_state r pages snapshots leases requests

abbrev pub run : Runtime → List Call → Runtime
run r [] = r
run r (c ∷ cs) = run (step r c) cs
