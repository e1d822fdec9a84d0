-- ===== src/Scheduler/Plans.antt =====
-- The estimates and the scale plan of src/production_scheduler.cpp: bounds, and no overflow.
use chromo_fold.Prelude.{
  ℕ, ap, ◌+◌, ◌-◌, ◌*◌, ◌/◌, ◌<◌, ◌≡◌, ◌&&◌, [], ◌∷◌, arith, ◌==◌, ltb, if◌then◌else◌, max,
}
use chromo_fold.Prelude.Words.{u32_mod, add32, mul64}
use chromo_fold.Prelude.Map.{Map, total}
use chromo_fold.Scheduler.Types.{
  RequestSpec, Runtime, WorkerCapacity, worker_healthy, circuit_closed,
}
use chromo_fold.Scheduler.Select.{estimate_prefill, estimate_decode}
use chromo_fold.Scheduler.Workers.{count_healthy, plan_scale}
use chromo_fold.Scheduler.Books.{sum_tenants-eq-total}
use chromo_fold.Scheduler.Valid.{IsValid}

-- On 32-bit token counts the products do not wrap: the estimates are the exact quotients, of the
-- uncached prompt tokens and of the completion tokens, in microseconds.
estimates_exact :
    (q : RequestSpec) (w : WorkerCapacity)
    → q.prompt_tokens < u32_mod
    → q.max_completion_tokens < u32_mod
    → (estimate_prefill q w
        ≡ (q.prompt_tokens - q.cached_prefix_tokens) * 1000000 / max 1 w.prefill_tokens_per_second)
      × (estimate_decode q w ≡ q.max_completion_tokens * 1000000 / max 1 w.decode_tokens_per_second)
unfolding estimate_prefill estimate_decode mul64
estimates_exact q w p c = (
  ap (λ (n : ℕ). n / max 1 w.prefill_tokens_per_second) (ground arith),
  ap (λ (n : ℕ). n / max 1 w.decode_tokens_per_second) (omega arith),
)

abbrev pub healthy_of : WorkerCapacity → ℕ
healthy_of w = if w.state == worker_healthy && w.circuit_state == circuit_closed then 1 else 0

count_healthy-total :
    (ws : Map WorkerCapacity) (acc : ℕ)
    → acc + total healthy_of ws < u32_mod
    → count_healthy ws acc ≡ acc + total healthy_of ws
unfolding count_healthy total add32
count_healthy-total [] acc h = omega arith
count_healthy-total ((id, w) ∷ ws) acc h =
    ground (arith, count_healthy-total ws (acc + healthy_of w))

-- 1 where more requests wait than the threshold.
abbrev pub overload : Runtime → ℕ
overload r =
    if ltb r.config.overload_queue_threshold (total (λ t. t.queued) r.tenants) then 1 else 0

-- With the books in order and fewer than 2^32 - 1 healthy workers, the plan asks for half of the
-- healthy workers, at least 1, to prefill, for the other half, at least 2, to decode, and for one
-- replica, and for one more of each exactly when more requests wait than the threshold; in all for
-- as many workers as are healthy, at least 3, and 2 more then; and it drains none.
pub plan_scale_workers :
    (r : Runtime)
    → IsValid r
    → total healthy_of r.workers < u32_mod - 1
    → let p = (plan_scale r).1 in
      let healthy = total healthy_of r.workers in
      (p.desired_prefill_workers ≡ max 1 (healthy / 2) + overload r)
      × (p.desired_decode_workers ≡ max 2 (healthy - healthy / 2) + overload r)
      × (p.desired_model_replicas ≡ 1 + overload r)
      × (p.drain_worker_count ≡ 0)
      × (p.desired_prefill_workers + p.desired_decode_workers ≡ max 3 healthy + 2 * overload r)
unfolding plan_scale add32
plan_scale_workers r v few =
    let counted = count_healthy-total r.workers 0 (omega arith) in
    let waiting =
      sum_tenants-eq-total (λ t. t.queued) r.tenants
        (omega (arith, v.within.queued_total, v.within.queued_range)) in
    (
      ground (arith, counted, waiting),
      ground (arith, counted, waiting),
      ground (arith, waiting),
      ground (arith, waiting),
      ground (arith, counted, waiting),
    )
