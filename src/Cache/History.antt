-- ===== src/Cache/History.antt =====
-- The reference counts through a history of calls (src/multisequence_cache.cpp).
use chromo_fold.Prelude.{◌≡◌}
use chromo_fold.Cache.Types.{Cache}
use chromo_fold.Cache.Outcome.{success}
use chromo_fold.Cache.Edit.{sequence_remove}
use chromo_fold.Cache.Sound.{IsSound}
use chromo_fold.Cache.{
  Call, creates, copies, removes, shifts, appends, attends, begins, commits, rolls_back, reclaims,
  step,
}
use chromo_fold.Cache.Sound.Copy.{sequence_create-IsSound, sequence_copy-IsSound}
use chromo_fold.Cache.Sound.Removal.{sequence_remove-IsSound}
use chromo_fold.Cache.Sound.Shift.{sequence_shift-IsSound}
use chromo_fold.Cache.Sound.Tails.{
  sequence_append-IsSound, attention-IsSound, speculation_begin-IsSound, speculation_commit-IsSound,
  speculation_rollback-IsSound,
}
use chromo_fold.Cache.Sound.Reclaim.{reclaim_lem}

-- The call is no removal, or one that succeeds.
abbrev RemovesWhole : Cache → Call → Type 0
RemovesWhole c (removes id b e) = (sequence_remove id b e c).1 ≡ success
RemovesWhole c (creates id) = Unit {0}
RemovesWhole c (copies source destination b e) = Unit {0}
RemovesWhole c (shifts id b e delta) = Unit {0}
RemovesWhole c (appends id layer begin keys values) = Unit {0}
RemovesWhole c (attends items) = Unit {0}
RemovesWhole c (begins id) = Unit {0}
RemovesWhole c (commits id spec accepted) = Unit {0}
RemovesWhole c (rolls_back id spec) = Unit {0}
RemovesWhole c reclaims = Unit {0}

-- Every call of the cache, whether it returns 0 or -1, keeps the reference counts in agreement
-- with the references that the sequences hold, except a removal that fails.
pub step-IsSound :
    (c : Cache) (call : Call) → IsSound c → RemovesWhole c call → IsSound (step c call)
unfolding step
step-IsSound c (creates id) v h = sequence_create-IsSound id c v
step-IsSound c (copies source destination b e) v h =
    sequence_copy-IsSound source destination b e c v
step-IsSound c (removes id b e) v h = sequence_remove-IsSound id b e c v h
step-IsSound c (shifts id b e delta) v h = sequence_shift-IsSound id b e delta c v
step-IsSound c (appends id layer begin keys values) v h =
    sequence_append-IsSound id layer begin keys values c v
step-IsSound c (attends items) v h = attention-IsSound items c v
step-IsSound c (begins id) v h = speculation_begin-IsSound id c v
step-IsSound c (commits id spec accepted) v h = speculation_commit-IsSound id spec accepted c v
step-IsSound c (rolls_back id spec) v h = speculation_rollback-IsSound id spec c v
step-IsSound c reclaims v h = (reclaim_lem c v).sound
