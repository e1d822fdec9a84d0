-- ===== src/Rc1.antt =====
-- src/rc1_runtime.cpp: the evidence for a release candidate and its decision.
pub mod Types
pub mod Evidence
pub mod Seen
pub mod Verdict
mod Examples
use chromo_fold.Prelude.{List, [], ◌∷◌}
use chromo_fold.Qualification.Types.{Double}
use Types.{Runtime, RequestEvent, MemorySample, ReferenceSample, LongDouble}
use Evidence.{record_request, record_memory, record_references}

-- The calls that change the runtime.
pub data Call (Real : Type 0) : Type 0 where
  records : RequestEvent Real → Call Real
  measures : MemorySample → Call Real
  sets : ReferenceSample → Call Real

module _ (d : Double) (l : LongDouble d) where
  open d use {Real}

  abbrev pub step : Runtime Real → Call Real → Runtime Real
  step r (records e) = (record_request d r e).0
  step r (measures s) = (record_memory d l r s).0
  step r (sets s) = record_references d r s

  abbrev pub run : Runtime Real → List (Call Real) → Runtime Real
  run r [] = r
  run r (c ∷ cs) = run (step r c) cs
