-- ===== src/Scheduler/Select.antt =====
-- Worker choice in src/production_scheduler.cpp: the estimates, the score, and the loop of
-- cf_scheduler_admit over the registered workers.
use chromo_fold.Prelude.{
  ℕ, ◌-◌, ◌/◌, ◌^◌, Bool, true, false, not, ◌&&◌, ◌||◌, Option, none, some, [], ◌∷◌, ltb, leb, ◌==◌,
  if◌then◌else◌, max, bit_and,
}
use chromo_fold.Prelude.Words.{add32, add64, mul64, u64_mod}
use chromo_fold.Prelude.Map.{Map}
use chromo_fold.Scheduler.Types.{
  TenantState, WorkerCapacity, RequestSpec, worker_draining, circuit_open,
}

unfoldable pub model_supported : WorkerCapacity → ℕ → Bool
model_supported worker model_id =
    if leb 64 model_id then false else not (bit_and worker.model_mask (2 ^ model_id) == 0)

unfoldable pub estimate_prefill : RequestSpec → WorkerCapacity → ℕ
estimate_prefill request worker = mul64 uncached 1000000 / max 1 worker.prefill_tokens_per_second
  where
    uncached : ℕ
    uncached =
        if ltb request.cached_prefix_tokens request.prompt_tokens
        then request.prompt_tokens - request.cached_prefix_tokens
        else 0

unfoldable pub estimate_decode : RequestSpec → WorkerCapacity → ℕ
estimate_decode request worker =
    mul64 request.max_completion_tokens 1000000 / max 1 worker.decode_tokens_per_second

unfoldable pub fairness_score : TenantState → RequestSpec → ℕ
fairness_score tenant request =
    let share = tenant.virtual_runtime / max 1 tenant.policy.weight in
    let priority_bonus = mul64 request.priority 1000 in
    if ltb priority_bonus share then share - priority_bonus else 0

-- The guard of the loop: the worker may take the request.
unfoldable pub eligible : RequestSpec → WorkerCapacity → Bool
eligible request worker = not (
    leb worker_draining worker.state
    || worker.circuit_state == circuit_open
    || not (model_supported worker request.model_id))

-- The two 32-bit loads are added in 32 bits, before the cast.
unfoldable pub score : TenantState → RequestSpec → WorkerCapacity → ℕ
score tenant request worker =
    let prefill = estimate_prefill request worker in
    let decode = estimate_decode request worker in
    let deadline_penalty : ℕ = if request.deadline_millis == 0 then 0 else add64 prefill decode in
    let load_penalty = mul64 (add32 worker.queue_depth worker.active_sequences) 1000 in
    add64 (add64 deadline_penalty load_penalty) (fairness_score tenant request)

pub record Choice : Type 0 where
  pub selected : Option WorkerCapacity
  pub best_score : ℕ

abbrev pub precedes : ℕ → ℕ → Choice → Bool
precedes s id c = elim c.selected [
  | none ↦ true
  | some w ↦ ltb s c.best_score || (s == c.best_score && ltb id w.worker_id)
]

unfoldable pub visit : TenantState → RequestSpec → Choice → WorkerCapacity → Choice
visit tenant request c worker =
    let s = score tenant request worker in
    if eligible request worker && precedes s worker.worker_id c
    then record { selected = some worker; best_score = s }
    else c

unfoldable pub select_loop : TenantState → RequestSpec → Choice → Map WorkerCapacity → Choice
select_loop tenant request c [] = c
select_loop tenant request c ((id, worker) ∷ rest) =
    select_loop tenant request (visit tenant request c worker) rest

unfoldable pub select_worker :
    TenantState → RequestSpec → Map WorkerCapacity → Option WorkerCapacity
unfolding select_loop
select_worker tenant request workers = (select_loop tenant request start workers).selected
  where
    start : Choice
    start = record { selected = none; best_score = u64_mod - 1 }
