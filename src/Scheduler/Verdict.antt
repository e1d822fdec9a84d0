-- ===== src/Scheduler/Verdict.antt =====
-- The decision of cf_scheduler_admit (src/production_scheduler.cpp), by conditions on the fields.
use chromo_fold.Prelude.{
  ℕ, ◌+◌, ◌%◌, ◌^◌, ◌≤◌, ◌<◌, ◌≡◌, ◌≢◌, ◌⊎◌, ◌↔◌, inl, inr, true, false, some, none, arith,
  Bool-cases, Option-cases, bit_and, subst, sym, ◌∙◌,
}
use chromo_fold.Prelude.Words.{u64_mod, add64}
use chromo_fold.Prelude.Map.{find, contains, IsDistinct, total}
use chromo_fold.Scheduler.Types.{
  TenantState, RequestSpec, WorkerCapacity, Runtime, ScheduleDecision, success, admit_now,
  admit_queue, reject_quota, reject_model, reject_overload, worker_draining, circuit_open,
}
use chromo_fold.Scheduler.Select.{eligible, model_supported, select_worker}
use chromo_fold.Scheduler.Selection.{select_worker-none, select_worker_best}
use chromo_fold.Scheduler.Admit.{must_queue, queue_full, over_quota, admit, enrol}
use chromo_fold.Scheduler.Admission.{IsRequest}
use chromo_fold.Scheduler.Valid.{IsValid, active_total_exact, queued_total_exact}

-- The request would take the tenant beyond its tokens, or the tenant has used up its time. The sums
-- are those of the machine.
abbrev IsOver : TenantState → RequestSpec → Type 0
IsOver t q =
    (t.policy.prompt_tokens_per_minute < (t.prompt_tokens + q.prompt_tokens) % u64_mod)
    ⊎ ((t.policy.completion_tokens_per_minute
          < (t.completion_tokens + q.max_completion_tokens) % u64_mod)
        ⊎ (t.policy.gpu_time_budget_micros ≤ t.gpu_micros))

abbrev IsUnder : TenantState → RequestSpec → Type 0
IsUnder t q =
    ((t.prompt_tokens + q.prompt_tokens) % u64_mod ≤ t.policy.prompt_tokens_per_minute)
    × ((t.completion_tokens + q.max_completion_tokens) % u64_mod
        ≤ t.policy.completion_tokens_per_minute)
    × (t.gpu_micros < t.policy.gpu_time_budget_micros)

-- A worker that is not draining or worse, whose circuit is not open, with the model in its mask.
abbrev CanServe : RequestSpec → WorkerCapacity → Type 0
CanServe q w =
    (w.state < worker_draining)
    × (w.circuit_state ≢ circuit_open)
    × (q.model_id < 64)
    × (bit_and w.model_mask (2 ^ q.model_id) ≢ 0)

abbrev IsServed : Runtime → RequestSpec → Type 0
IsServed r q = (id : ℕ) × (w : WorkerCapacity) × (find id r.workers ≡ some w) × CanServe q w

abbrev active_sum : Runtime → ℕ
active_sum r = total (λ t. t.active) r.tenants

abbrev queued_sum : Runtime → ℕ
queued_sum r = total (λ t. t.queued) r.tenants

-- The runtime, or the tenant, runs as many requests as it may; as many wait as may.
abbrev IsBusy : Runtime → TenantState → Type 0
IsBusy r t =
    (r.config.max_active_requests ≤ active_sum r) ⊎ (t.policy.max_concurrent_requests ≤ t.active)

abbrev IsFull : Runtime → TenantState → Type 0
IsFull r t =
    (r.config.max_queued_requests ≤ queued_sum r) ⊎ (t.policy.max_queued_requests ≤ t.queued)

abbrev IsFree : Runtime → TenantState → Type 0
IsFree r t =
    (active_sum r < r.config.max_active_requests) × (t.active < t.policy.max_concurrent_requests)

abbrev HasQueue : Runtime → TenantState → Type 0
HasQueue r t =
    (queued_sum r < r.config.max_queued_requests) × (t.queued < t.policy.max_queued_requests)

eligible-CanServe : (q : RequestSpec) (w : WorkerCapacity) → (eligible q w ≡ true) ↔ CanServe q w
unfolding eligible model_supported
eligible-CanServe q w = (λ e. ground arith, λ h. ground arith)

-- Each decision, with what makes it.
pub data IsVerdict (r : Runtime) (q : RequestSpec) (t : TenantState) : ℕ → Type 0 where
  over : IsOver t q → IsVerdict r q t reject_quota
  unserved :
      IsUnder t q
      → ((id : ℕ) (w : WorkerCapacity) → find id r.workers ≡ some w → ¬ CanServe q w)
      → IsVerdict r q t reject_model
  crowded : IsUnder t q → IsServed r q → IsBusy r t → IsFull r t → IsVerdict r q t reject_overload
  waits : IsUnder t q → IsServed r q → IsBusy r t → HasQueue r t → IsVerdict r q t admit_queue
  runs : IsUnder t q → IsServed r q → IsFree r t → IsVerdict r q t admit_now

over_quota-IsOver : (t : TenantState) (q : RequestSpec) → (over_quota t q ≡ true) ↔ IsOver t q
unfolding over_quota add64
over_quota-IsOver t q = (λ e. ground arith, λ h. ground arith)

over_quota-IsUnder : (t : TenantState) (q : RequestSpec) → (over_quota t q ≡ false) ↔ IsUnder t q
unfolding over_quota add64
over_quota-IsUnder t q = (λ e. ground arith, λ h. ground arith)

module _ (r : Runtime) (t : TenantState) (v : IsValid r) where
  must_queue-IsBusy : (must_queue r t ≡ true) ↔ IsBusy r t
  unfolding must_queue
  must_queue-IsBusy =
      (λ e. ground (arith, active_total_exact r v), λ h. ground (arith, active_total_exact r v))

  must_queue-IsFree : (must_queue r t ≡ false) ↔ IsFree r t
  unfolding must_queue
  must_queue-IsFree =
      (λ e. ground (arith, active_total_exact r v), λ h. ground (arith, active_total_exact r v))

  queue_full-IsFull : (queue_full r t ≡ true) ↔ IsFull r t
  unfolding queue_full
  queue_full-IsFull =
      (λ e. ground (arith, queued_total_exact r v), λ h. ground (arith, queued_total_exact r v))

  queue_full-HasQueue : (queue_full r t ≡ false) ↔ HasQueue r t
  unfolding queue_full
  queue_full-HasQueue =
      (λ e. ground (arith, queued_total_exact r v), λ h. ground (arith, queued_total_exact r v))

module _ (r : Runtime) (q : RequestSpec) (t : TenantState) (d : IsDistinct r.workers) where
  unserved_iff :
      (select_worker t q r.workers ≡ none)
      ↔ ((id : ℕ) (w : WorkerCapacity) → find id r.workers ≡ some w → ¬ CanServe q w)
  unserved_iff =
      let n = select_worker-none t q r.workers d in
      (
        λ e id w f s. absurd (cc (n.0 e id w f, (eligible-CanServe q w).1 s)),
        λ h. n.1 λ id w f. elim (Bool-cases (eligible q w)) [
          | inl s ↦ absurd (h id w f ((eligible-CanServe q w).0 s))
          | inr s ↦ s
        ],
      )

  served_selects : IsServed r q → (w : WorkerCapacity) × (select_worker t q r.workers ≡ some w)
  served_selects (id, w, f, s) = elim (Option-cases (select_worker t q r.workers)) [
    | inl e ↦ absurd (unserved_iff.0 e id w f s)
    | inr g ↦ g
  ]

  select_serves : (w : WorkerCapacity) → select_worker t q r.workers ≡ some w → IsServed r q
  select_serves w e =
      let best = select_worker_best t q r.workers w d e in
      (best.0.0, w, best.0.1, (eligible-CanServe q w).0 best.1)

-- What the code answers, test by test.
module _ (r : Runtime) (q : RequestSpec) (d : ScheduleDecision) (t : TenantState)
    (request : IsRequest q) (open_ : r.shutting_down ≡ false)
    (new : contains q.request_id r.requests ≡ false)
    (here : find q.tenant_id r.tenants ≡ some t) where
  answers_over :
      over_quota t q ≡ true → ((admit r q d).2 ≡ success) × ((admit r q d).1.result ≡ reject_quota)
  unfolding admit
  answers_over o = ground (arith, here)

  answers_none :
      over_quota t q ≡ false
      → select_worker t q r.workers ≡ none
      → ((admit r q d).2 ≡ success) × ((admit r q d).1.result ≡ reject_model)
  unfolding admit
  answers_none o s = ground (arith, here)

  module _ (w : WorkerCapacity) (under : over_quota t q ≡ false)
      (selected : select_worker t q r.workers ≡ some w) where
    answers_crowded :
        must_queue r t ≡ true
        → queue_full r t ≡ true
        → ((admit r q d).2 ≡ success) × ((admit r q d).1.result ≡ reject_overload)
    unfolding admit
    answers_crowded b f = ground (arith, here)

    answers_waits :
        must_queue r t ≡ true
        → queue_full r t ≡ false
        → ((admit r q d).2 ≡ success) × ((admit r q d).1.result ≡ admit_queue)
    unfolding admit enrol
    answers_waits b f = ground (arith, here)

    answers_runs :
        must_queue r t ≡ false → ((admit r q d).2 ≡ success) × ((admit r q d).1.result ≡ admit_now)
    unfolding admit enrol
    answers_runs b = ground (arith, here)

  module _ (v : IsValid r) (distinct : IsDistinct r.workers) where
    IsVerdict-answers :
        (n : ℕ) → IsVerdict r q t n → ((admit r q d).2 ≡ success) × ((admit r q d).1.result ≡ n)
    IsVerdict-answers n (over o) = answers_over ((over_quota-IsOver t q).1 o)
    IsVerdict-answers n (unserved u s) =
        answers_none ((over_quota-IsUnder t q).1 u) ((unserved_iff r q t distinct).1 s)
    IsVerdict-answers n (crowded u s b f) =
        let (w, e) = served_selects r q t distinct s in
        answers_crowded w ((over_quota-IsUnder t q).1 u) e ((must_queue-IsBusy r t v).1 b)
          ((queue_full-IsFull r t v).1 f)
    IsVerdict-answers n (waits u s b f) =
        let (w, e) = served_selects r q t distinct s in
        answers_waits w ((over_quota-IsUnder t q).1 u) e ((must_queue-IsBusy r t v).1 b)
          ((queue_full-HasQueue r t v).1 f)
    IsVerdict-answers n (runs u s b) =
        let (w, e) = served_selects r q t distinct s in
        answers_runs w ((over_quota-IsUnder t q).1 u) e ((must_queue-IsFree r t v).1 b)

    some-IsVerdict : (n : ℕ) × IsVerdict r q t n
    some-IsVerdict = elim (Bool-cases (over_quota t q)) [
      | inl o ↦ (reject_quota, over ((over_quota-IsOver t q).0 o))
      | inr o ↦ elim (Option-cases (select_worker t q r.workers)) [
        | inl e ↦ (
          reject_model,
          unserved ((over_quota-IsUnder t q).0 o) ((unserved_iff r q t distinct).0 e),
        )
        | inr (w, e) ↦
            let u = (over_quota-IsUnder t q).0 o in
            let s = select_serves r q t distinct w e in
            elim (Bool-cases (must_queue r t)) [
              | inr b ↦ (admit_now, runs u s ((must_queue-IsFree r t v).0 b))
              | inl b ↦ elim (Bool-cases (queue_full r t)) [
                | inl f ↦ (
                  reject_overload,
                  crowded u s ((must_queue-IsBusy r t v).0 b) ((queue_full-IsFull r t v).0 f),
                )
                | inr f ↦ (
                  admit_queue,
                  waits u s ((must_queue-IsBusy r t v).0 b) ((queue_full-HasQueue r t v).0 f),
                )
              ]
            ]
      ]
    ]

-- With the books in order, distinct numbers of workers, the required fields, a new request number,
-- a registered tenant and no shutdown, an admission succeeds, and decides exactly as the
-- conditions say: over the quota where a token sum exceeds its limit or the time is used up, else
-- no model where no registered worker can serve, else overload, waiting or running, by the sums of
-- running and waiting requests and the limits of the runtime and the tenant.
pub admit-IsVerdict :
    (r : Runtime) (q : RequestSpec) (d : ScheduleDecision) (t : TenantState) (n : ℕ)
    → IsValid r
    → IsDistinct r.workers
    → IsRequest q
    → r.shutting_down ≡ false
    → contains q.request_id r.requests ≡ false
    → find q.tenant_id r.tenants ≡ some t
    → ((admit r q d).2 ≡ success) × (((admit r q d).1.result ≡ n) ↔ IsVerdict r q t n)
admit-IsVerdict r q d t n v distinct request open_ new here =
    let (m, x) = some-IsVerdict r q d t request open_ new here v distinct in
    let (ok, same) = IsVerdict-answers r q d t request open_ new here v distinct m x in
    (
      ok,
      (
        λ e. subst (IsVerdict r q t) (sym same ∙ e) x,
        λ y. (IsVerdict-answers r q d t request open_ new here v distinct n y).1,
      ),
    )
