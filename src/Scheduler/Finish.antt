-- ===== src/Scheduler/Finish.antt =====
-- The end of a request in src/production_scheduler.cpp: completion with its usage record, and
-- cancellation.
use chromo_fold.Prelude.{ℕ, ◌-◌, none, some, ◌==◌, if◌then◌else◌}
use chromo_fold.Prelude.Words.{add64}
use chromo_fold.Prelude.Map.{find, contains, emplace, assign, erase}
use chromo_fold.Scheduler.Types.{TenantState, RequestState, Runtime, Status, success, failure}

-- The tenant's share of a request goes.
unfoldable pub discharge : TenantState → RequestState → TenantState
discharge t q = record t {
  active = if q.queued then t.active else t.active - 1;
  queued = if q.queued then t.queued - 1 else t.queued;
}

unfoldable pub finish : Runtime → ℕ → RequestState → TenantState → ℕ → ℕ → Runtime
unfolding discharge
finish r id q t generated gpu = record r {
  tenants = assign q.spec.tenant_id t' r.tenants;
  requests = erase id r.requests;
  usage_records = emplace id gpu r.usage_records;
}
  where
    t' : TenantState
    t' = record (discharge t q) {
      completion_tokens = add64 t.completion_tokens generated;
      gpu_micros = add64 t.gpu_micros gpu;
    }

-- cf_scheduler_complete once the request is found.
unfoldable pub settle : Runtime → ℕ → RequestState → ℕ → ℕ → Runtime × Status
unfolding finish
settle r id q generated gpu =
    if contains id r.usage_records
    then (
      record r {
        counters = record r.counters {
          duplicate_usage_records = add64 r.counters.duplicate_usage_records 1;
        };
      },
      failure,
    )
    else elim (find q.spec.tenant_id r.tenants) [
      | none ↦ (r, failure)
      | some t ↦ (finish r id q t generated gpu, success)
    ]

unfoldable pub complete : Runtime → ℕ → ℕ → ℕ → Runtime × Status
unfolding settle
complete r id generated gpu =
    if id == 0
    then (r, failure)
    else elim (find id r.requests) [ none ↦ (r, failure) | some q ↦ settle r id q generated gpu ]

drop_request : Runtime → ℕ → RequestState → TenantState → Runtime
unfolding discharge
drop_request r id q t = record r {
  tenants = assign q.spec.tenant_id (discharge t q) r.tenants;
  requests = erase id r.requests;
  counters = record r.counters { cancellations = add64 r.counters.cancellations 1 };
}

unfoldable pub cancel : Runtime → ℕ → Runtime × Status
unfolding drop_request
cancel r id = if id == 0 then (r, failure) else elim (find id r.requests) [
  | none ↦ (r, failure)
  | some q ↦ elim (find q.spec.tenant_id r.tenants) [
    | none ↦ (r, failure)
    | some t ↦ (drop_request r id q t, success)
  ]
]
