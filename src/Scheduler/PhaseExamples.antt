-- ===== src/Scheduler/PhaseExamples.antt =====
-- Lives of requests in src/production_scheduler.cpp: a tenant of one request at a time and two requests.
use chromo_fold.Prelude.{◌≡◌, refl, true, List, [], ◌∷◌}
use chromo_fold.Prelude.Words.{add32, add64, mul64}
use chromo_fold.Prelude.Map.{find, emplace, assign}
use chromo_fold.Scheduler.{
  Call, registers_tenant, registers_worker, admits, completes, opens, create, register_tenant, step,
  run,
}
use chromo_fold.Scheduler.Select.{
  model_supported, estimate_prefill, estimate_decode, fairness_score, eligible, score, visit,
  select_worker,
}
use chromo_fold.Scheduler.Admit.{
  sum_tenants, over_quota, must_queue, queue_full, charge, enrol, admit_worker, admit_tenant, admit,
}
use chromo_fold.Scheduler.Workers.{register_worker}
use chromo_fold.Scheduler.Phases.{placed, phase, Moves, step_refines, queued_waits}
use chromo_fold.Scheduler.Examples.{config, policy, worker, request, blank, fresh}

-- Request 6 waits behind request 5.
abbrev crowding : List Call
crowding =
    registers_tenant policy
    ∷ registers_worker (worker 4 0)
    ∷ admits (request 5) blank
    ∷ admits (request 6) blank
    ∷ []

waits : phase 6 (run fresh crowding) ≡ placed true 4
unfolding run step admit enrol charge register_worker register_tenant find emplace assign add64
    select_worker visit eligible model_supported score mul64 add32 fairness_score sum_tenants
    estimate_prefill estimate_decode over_quota must_queue queue_full admit_worker admit_tenant
waits = refl

-- It goes on to wait when request 5 is done and the worker is free.
queued_waits_example :
    phase 6 (run (run fresh crowding) (completes 5 5 100 ∷ opens 4 ∷ [])) ≡ placed true 4
unfolding create
queued_waits_example =
    queued_waits config fresh crowding (completes 5 5 100 ∷ opens 4 ∷ []) 6 4 refl waits
      (refl, (refl, tt))

step_refines_example :
    Moves 6
      (completes 5 5 100)
      (phase 6 (run fresh crowding))
      (phase 6 (step (run fresh crowding) (completes 5 5 100)))
unfolding create
step_refines_example = step_refines config fresh crowding (completes 5 5 100) 6 refl
