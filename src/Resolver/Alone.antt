-- ===== src/Resolver/Alone.antt =====
-- A batch of src/cuda/multisequence_cuda_resolver.cu that nothing overlaps.
use chromo_fold.Prelude.{ℕ, zero, suc, List, [], ◌∷◌, length}
use chromo_fold.Resolver.Types.{BatchItem, Snapshot, Resolver}
use chromo_fold.Resolver.Overlap.{Stage, System, Act, begins, resumes}

abbrev one : Resolver → Stage → List Snapshot → System
one r s ss = record { resolver = r; batches = record { stage = s; snapshots = ss } ∷ [] }

abbrev again : ℕ → List Act
again zero = []
again (suc n) = resumes 0 ∷ again n

-- The first critical section, a step for each item, and one or two for the end.
abbrev pub alone : List BatchItem → List Act
alone items = begins items ∷ again (suc (suc (length items)))
