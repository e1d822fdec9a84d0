-- ===== src/Scheduler/Selection.antt =====
-- The choice of a worker in cf_scheduler_admit (src/production_scheduler.cpp).
use chromo_fold.Prelude.{
  ℕ, ap, ◌≤◌, ◌<◌, ◌≡◌, sym, ◌∙◌, ◌⊎◌, inl, inr, ◌↔◌, true, false, Option, none, some, [], ◌∷◌,
  arith, ◌==◌, ◌-◌, Option-cases, Bool-cases, subst, ◌&&◌,
}
use chromo_fold.Prelude.Words.{u64_mod}
use chromo_fold.Prelude.Map.{Map, find, IsDistinct}
use chromo_fold.Scheduler.Types.{TenantState, WorkerCapacity, RequestSpec}
use chromo_fold.Scheduler.Select.{
  Choice, score, eligible, precedes, visit, select_loop, select_worker,
}

module _ (t : TenantState) (q : RequestSpec) where
  -- No later in the order of scores, ties broken by the worker's number.
  abbrev pub Preferred : WorkerCapacity → WorkerCapacity → Type 0
  Preferred w v =
      (score t q w < score t q v) ⊎ ((score t q w ≡ score t q v) × (w.worker_id ≤ v.worker_id))

  -- The worker held so far is eligible, and the score is its own.
  abbrev IsSound : Option WorkerCapacity → ℕ → Type 0
  IsSound none s = Unit {0}
  IsSound (some w) s = (s ≡ score t q w) × (eligible q w ≡ true)

  abbrev Beats : Option WorkerCapacity → WorkerCapacity → Type 0
  Beats none v = ⊥
  Beats (some w) v = Preferred w v

  visit-IsSound :
      (c : Choice) (w : WorkerCapacity)
      → IsSound c.selected c.best_score
      → IsSound (visit t q c w).selected (visit t q c w).best_score
  unfolding visit
  visit-IsSound c w h = ground arith

  visit-Beats_visited :
      (c : Choice) (w : WorkerCapacity)
      → IsSound c.selected c.best_score
      → eligible q w ≡ true
      → Beats (visit t q c w).selected w
  unfolding visit
  visit-Beats_visited c w h e = ground arith

  visit-Beats_still :
      (c : Choice) (w v : WorkerCapacity)
      → IsSound c.selected c.best_score
      → Beats c.selected v
      → Beats (visit t q c w).selected v
  unfolding visit
  visit-Beats_still c w v h b = ground arith

  select_loop-IsSound :
      (c : Choice) (ws : Map WorkerCapacity)
      → IsSound c.selected c.best_score
      → IsSound (select_loop t q c ws).selected (select_loop t q c ws).best_score
  unfolding select_loop
  select_loop-IsSound c [] h = h
  select_loop-IsSound c ((id, w) ∷ ws) h =
      select_loop-IsSound (visit t q c w) ws (visit-IsSound c w h)

  select_loop-Beats_still :
      (c : Choice) (ws : Map WorkerCapacity) (v : WorkerCapacity)
      → IsSound c.selected c.best_score
      → Beats c.selected v
      → Beats (select_loop t q c ws).selected v
  unfolding select_loop
  select_loop-Beats_still c [] v h b = b
  select_loop-Beats_still c ((id, w) ∷ ws) v h b =
      select_loop-Beats_still (visit t q c w) ws v (visit-IsSound c w h)
        (visit-Beats_still c w v h b)

  select_loop-Beats_visited :
      (c : Choice) (ws : Map WorkerCapacity) (id : ℕ) (v : WorkerCapacity)
      → IsSound c.selected c.best_score
      → find id ws ≡ some v
      → eligible q v ≡ true
      → Beats (select_loop t q c ws).selected v
  unfolding select_loop find
  select_loop-Beats_visited c [] id v h f e = cc
  select_loop-Beats_visited c ((j, w) ∷ ws) id v h f e = elim (Bool-cases (j == id)) [
    | inl hit ↦
        let same : w ≡ v = ground arith in
        select_loop-Beats_still (visit t q c w) ws v (visit-IsSound c w h)
          (rw (← same) (visit-Beats_visited c w h (rw same e)))
    | inr miss ↦
        select_loop-Beats_visited (visit t q c w) ws id v (visit-IsSound c w h) (ground arith) e
  ]

  -- What the loop holds at its end was held before, or is registered.
  select_loop_origin :
      (c : Choice) (ws : Map WorkerCapacity) (w : WorkerCapacity)
      → IsDistinct ws
      → (select_loop t q c ws).selected ≡ some w
      → (c.selected ≡ some w) ⊎ ((id : ℕ) × (find id ws ≡ some w))
  unfolding select_loop find visit
  select_loop_origin c [] w d h = inl h
  select_loop_origin c ((j, v) ∷ ws) w d h = elim (select_loop_origin (visit t q c v) ws w d.1 h) [
    | inl held ↦ elim (Bool-cases (eligible q v && precedes (score t q v) v.worker_id c)) [
      | inl b ↦ inr (j, ground arith)
      | inr b ↦ inl (ground arith)
    ]
    | inr (id, f) ↦ inr (id, ground arith)
  ]

  -- A selected worker is registered and eligible, and no eligible registered worker has a lower
  -- score, nor the same score and a smaller number; the keys of the table are distinct.
  pub select_worker_best :
      (ws : Map WorkerCapacity) (w : WorkerCapacity)
      → IsDistinct ws
      → select_worker t q ws ≡ some w
      → ((id : ℕ) × (find id ws ≡ some w))
        × (eligible q w ≡ true)
        × ((id : ℕ) (v : WorkerCapacity)
            → find id ws ≡ some v
            → eligible q v ≡ true
            → Preferred w v)
  unfolding select_worker
  select_worker_best ws w d h = (
    elim (select_loop_origin start ws w d h) [ inl n ↦ cc | inr f ↦ f ],
    (subst (λ s. IsSound s (select_loop t q start ws).best_score) h
        (select_loop-IsSound start ws tt)).1,
    λ id v f e. subst (λ s. Beats s v) h (select_loop-Beats_visited start ws id v tt f e),
  )
    where
      start : Choice
      start = record { selected = none; best_score = u64_mod - 1 }

  -- In a table with distinct keys, no worker is selected exactly when no registered worker is
  -- eligible.
  pub select_worker-none :
      (ws : Map WorkerCapacity)
      → IsDistinct ws
      → (select_worker t q ws ≡ none)
        ↔ ((id : ℕ) (v : WorkerCapacity) → find id ws ≡ some v → eligible q v ≡ false)
  unfolding select_worker
  select_worker-none ws d = (
    λ e id v f. elim (Bool-cases (eligible q v)) [
      | inl b ↦ absurd (
          subst (λ s. Beats s v) e
            (select_loop-Beats_visited (record { selected = none; best_score = u64_mod - 1 }) ws id
              v tt f b))
      | inr b ↦ b
    ],
    λ h. elim (Option-cases (select_worker t q ws)) [
      | inl n ↦ n
      | inr (w, e) ↦ let best = select_worker_best ws w d e in cc (best.1, h best.0.0 w best.0.1)
    ],
  )

  Preferred-antisym :
      (w v : WorkerCapacity) → Preferred w v → Preferred v w → w.worker_id ≡ v.worker_id
  Preferred-antisym w v a b = omega arith

  selects_same :
      (ws vs : Map WorkerCapacity)
      → IsDistinct ws
      → IsDistinct vs
      → ((id : ℕ) → find id ws ≡ find id vs)
      → ((id : ℕ) (w : WorkerCapacity) → find id ws ≡ some w → w.worker_id ≡ id)
      → (w v : WorkerCapacity) → select_worker t q ws ≡ some w
      → select_worker t q vs ≡ some v
      → some w ≡ some v
  selects_same ws vs dw dv same keyed w v ew ev =
      let bw = select_worker_best ws w dw ew in
      let bv = select_worker_best vs v dv ev in
      let fv = same bv.0.0 ∙ bv.0.1 in
      let pw = bw.2 bv.0.0 v fv bv.1 in
      let pv = bv.2 bw.0.0 w (sym (same bw.0.0) ∙ bw.0.1) bw.1 in
      let kw = keyed bw.0.0 w bw.0.1 in
      let kv = keyed bv.0.0 v fv in
      let ids = Preferred-antisym w v pw pv in
      sym bw.0.1 ∙ ap (λ i. find i ws) (sym kw ∙ ids ∙ kv) ∙ fv

  none_same :
      (ws vs : Map WorkerCapacity)
      → IsDistinct ws
      → IsDistinct vs
      → ((id : ℕ) → find id ws ≡ find id vs)
      → select_worker t q ws ≡ none
      → select_worker t q vs ≡ none
  none_same ws vs dw dv same e =
      (select_worker-none vs dv).1 λ id v f. (select_worker-none ws dw).0 e id v (same id ∙ f)

  -- The choice does not depend on the order of iteration: two tables with distinct keys and the
  -- same entries, each worker under its own number, give the same choice.
  select_worker_order :
      (ws vs : Map WorkerCapacity)
      → IsDistinct ws
      → IsDistinct vs
      → ((id : ℕ) → find id ws ≡ find id vs)
      → ((id : ℕ) (w : WorkerCapacity) → find id ws ≡ some w → w.worker_id ≡ id)
      → select_worker t q ws ≡ select_worker t q vs
  select_worker_order ws vs dw dv same keyed = elim (Option-cases (select_worker t q ws)) [
    | inl n ↦ n ∙ sym (none_same ws vs dw dv same n)
    | inr (w, e) ↦ elim (Option-cases (select_worker t q vs)) [
      | inl n ↦ none_same vs ws dv dw (λ id. sym (same id)) n ∙ sym n
      | inr (v, f) ↦ e ∙ selects_same ws vs dw dv same keyed w v e f ∙ sym f
    ]
  ]
