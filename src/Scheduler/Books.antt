-- ===== src/Scheduler/Books.antt =====
-- The books of src/production_scheduler.cpp: each tenant's counts against the table of requests, and
-- the limits of the configuration and of the policies.
use chromo_fold.Prelude.{
  ℕ, ◌+◌, ◌-◌, ◌≤◌, ◌<◌, ◌%◌, ◌≡◌, true, false, not, ◌&&◌, some, [], ◌∷◌, arith, ◌==◌,
  if◌then◌else◌,
}
use chromo_fold.Prelude.Words.{u32_mod, u64_mod, add64}
use chromo_fold.Prelude.Map.{
  Map, find, contains, emplace, assign, erase, total, IsDistinct, find-assign, find-emplace,
  find-erase, contains-assign, assign-IsDistinct, emplace-IsDistinct, erase-IsDistinct,
  total-assign, total-erase, total-emplace, total_zero,
}
use chromo_fold.Scheduler.Types.{Config, TenantPolicy, TenantState, RequestState}
use chromo_fold.Scheduler.Admit.{sum_tenants}

-- 1 for a request of the tenant that runs, and 1 for one that waits.
abbrev active_of : ℕ → RequestState → ℕ
active_of id q = if q.spec.tenant_id == id && not q.queued then 1 else 0

abbrev queued_of : ℕ → RequestState → ℕ
queued_of id q = if q.spec.tenant_id == id && q.queued then 1 else 0

-- The fields that limit a tenant are uint32_t.
abbrev pub InRange : TenantPolicy → Type 0
InRange p = (p.max_concurrent_requests < u32_mod) × (p.max_queued_requests < u32_mod)

pub record IsBalanced (ts : Map TenantState) (qs : Map RequestState) : Type 0 where
  pub tenants_distinct : IsDistinct ts
  pub requests_distinct : IsDistinct qs
  pub active_counted :
      (id : ℕ) (t : TenantState) → find id ts ≡ some t → t.active ≡ total (active_of id) qs
  pub queued_counted :
      (id : ℕ) (t : TenantState) → find id ts ≡ some t → t.queued ≡ total (queued_of id) qs
  pub owned : (k : ℕ) (q : RequestState) → find k qs ≡ some q → contains q.spec.tenant_id ts ≡ true

pub record IsWithin (c : Config) (ts : Map TenantState) : Type 0 where
  pub active_range : c.max_active_requests < u32_mod
  pub queued_range : c.max_queued_requests < u32_mod
  pub active_total : total (λ t. t.active) ts ≤ c.max_active_requests
  pub queued_total : total (λ t. t.queued) ts ≤ c.max_queued_requests
  pub policies : (id : ℕ) (t : TenantState) → find id ts ≡ some t → InRange t.policy
  pub concurrent :
      (id : ℕ) (t : TenantState) → find id ts ≡ some t → t.active ≤ t.policy.max_concurrent_requests
  pub waiting :
      (id : ℕ) (t : TenantState) → find id ts ≡ some t → t.queued ≤ t.policy.max_queued_requests

-- The loop adds modulo 2^64.
sum_tenants-total :
    (f : TenantState → ℕ) (ts : Map TenantState) (acc : ℕ)
    → acc < u64_mod
    → sum_tenants f ts acc ≡ (acc + total f ts) % u64_mod
unfolding sum_tenants total add64
sum_tenants-total f [] acc h = omega arith
sum_tenants-total f ((id, t) ∷ ts) acc h =
    omega (arith, sum_tenants-total f ts (add64 acc (f t)) (omega arith))

pub sum_tenants-eq-total :
    (f : TenantState → ℕ) (ts : Map TenantState)
    → total f ts < u64_mod
    → sum_tenants f ts 0 ≡ total f ts
sum_tenants-eq-total f ts h = omega (arith, sum_tenants-total f ts 0 (omega arith))

-- A tenant is registered with nothing to its name.
module _ (ts : Map TenantState) (qs : Map RequestState) (b : IsBalanced ts qs) where
  -- No request names a tenant that is not registered.
  unregistered_total :
      (f : ℕ → RequestState → ℕ)
      → ((j : ℕ) (r : RequestState) → (r.spec.tenant_id == j) ≡ false → f j r ≡ 0)
      → (id : ℕ) → contains id ts ≡ false
      → total (f id) qs ≡ 0
  unregistered_total f zero_if id new =
      total_zero (f id) qs b.requests_distinct λ k r e. zero_if id r (ground (arith, b.owned k r e))

  pub emplace-IsBalanced :
      (id : ℕ) (t : TenantState)
      → contains id ts ≡ false
      → t.active ≡ 0
      → t.queued ≡ 0
      → IsBalanced (emplace id t ts) qs
  emplace-IsBalanced id t new a q = record {
    tenants_distinct = emplace-IsDistinct id t ts b.tenants_distinct;
    requests_distinct = b.requests_distinct;
    active_counted = λ j u e. ground (
      arith,
      find-emplace id j t ts,
      unregistered_total active_of (λ j r h. ground arith) id new,
      b.active_counted j u,
    );
    queued_counted = λ j u e. ground (
      arith,
      find-emplace id j t ts,
      unregistered_total queued_of (λ j r h. ground arith) id new,
      b.queued_counted j u,
    );
    owned = λ k r e. ground (arith, find-emplace id r.spec.tenant_id t ts, b.owned k r e);
  }

  module _ (id : ℕ) (t : TenantState) (here : find id ts ≡ some t) (k : ℕ) (r : RequestState) where
    pub enrol-IsBalanced :
        (t' : TenantState)
        → contains k qs ≡ false
        → r.spec.tenant_id ≡ id
        → t'.active ≡ (if r.queued then t.active else t.active + 1)
        → t'.queued ≡ (if r.queued then t.queued + 1 else t.queued)
        → IsBalanced (assign id t' ts) (emplace k r qs)
    enrol-IsBalanced t' new own a q = record {
      tenants_distinct = assign-IsDistinct id t' ts b.tenants_distinct;
      requests_distinct = emplace-IsDistinct k r qs b.requests_distinct;
      active_counted = λ j u e. ground (
        arith,
        find-assign id j t' ts,
        b.active_counted id t here,
        b.active_counted j u,
        total-emplace (active_of j) k r qs new,
      );
      queued_counted = λ j u e. ground (
        arith,
        find-assign id j t' ts,
        b.queued_counted id t here,
        b.queued_counted j u,
        total-emplace (queued_of j) k r qs new,
      );
      owned = λ i s e. ground (
        arith,
        contains-assign id s.spec.tenant_id t' ts,
        find-emplace k i r qs new,
        b.owned i s,
      );
    }

    pub discharge-IsBalanced :
        (t' : TenantState)
        → find k qs ≡ some r
        → r.spec.tenant_id ≡ id
        → t'.active ≡ (if r.queued then t.active else t.active - 1)
        → t'.queued ≡ (if r.queued then t.queued - 1 else t.queued)
        → IsBalanced (assign id t' ts) (erase k qs)
    discharge-IsBalanced t' held own a q = record {
      tenants_distinct = assign-IsDistinct id t' ts b.tenants_distinct;
      requests_distinct = erase-IsDistinct k qs b.requests_distinct;
      active_counted = λ j u e. ground (
        arith,
        find-assign id j t' ts,
        b.active_counted id t here,
        b.active_counted j u,
        total-erase (active_of j) k r qs held,
      );
      queued_counted = λ j u e. ground (
        arith,
        find-assign id j t' ts,
        b.queued_counted id t here,
        b.queued_counted j u,
        total-erase (queued_of j) k r qs held,
      );
      owned = λ i s e. ground (
        arith,
        contains-assign id s.spec.tenant_id t' ts,
        find-erase k i qs b.requests_distinct,
        b.owned i s,
      );
    }

module _ (c : Config) (ts : Map TenantState) (h : IsWithin c ts) (id : ℕ) where
  pub emplace-IsWithin :
      (t : TenantState)
      → contains id ts ≡ false
      → t.active ≡ 0
      → t.queued ≡ 0
      → InRange t.policy
      → IsWithin c (emplace id t ts)
  emplace-IsWithin t new a q range = record {
    active_range = h.active_range;
    queued_range = h.queued_range;
    active_total = ground (arith, h.active_total, total-emplace (λ u. u.active) id t ts new);
    queued_total = ground (arith, h.queued_total, total-emplace (λ u. u.queued) id t ts new);
    policies = λ j u e. ground (arith, find-emplace id j t ts new, h.policies j u);
    concurrent = λ j u e. ground (arith, find-emplace id j t ts new, h.concurrent j u);
    waiting = λ j u e. ground (arith, find-emplace id j t ts new, h.waiting j u);
  }

  pub assign-IsWithin :
      (t t' : TenantState)
      → find id ts ≡ some t
      → t'.policy ≡ t.policy
      → t'.active ≤ t.policy.max_concurrent_requests
      → t'.queued ≤ t.policy.max_queued_requests
      → total (λ u. u.active) ts + t'.active ≤ c.max_active_requests + t.active
      → total (λ u. u.queued) ts + t'.queued ≤ c.max_queued_requests + t.queued
      → IsWithin c (assign id t' ts)
  assign-IsWithin t t' here same a q ta tq = record {
    active_range = h.active_range;
    queued_range = h.queued_range;
    active_total = omega (arith, total-assign (λ u. u.active) id t' t ts here);
    queued_total = omega (arith, total-assign (λ u. u.queued) id t' t ts here);
    policies =
        λ j u e. ground (arith, find-assign id j t' ts, h.policies id t here, h.policies j u);
    concurrent = λ j u e. ground (arith, find-assign id j t' ts, h.concurrent j u);
    waiting = λ j u e. ground (arith, find-assign id j t' ts, h.waiting j u);
  }
