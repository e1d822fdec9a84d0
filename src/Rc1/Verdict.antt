-- ===== src/Rc1/Verdict.antt =====
-- What a decision of src/rc1_runtime.cpp says of the requests of a run.
use mathlib.Core.Bool.{true≢false}
use mathlib.Core.Option.{some-injective}
use chromo_fold.Prelude.{
  ℕ, suc, ◌+◌, ◌%◌, ◌≤◌, ◌<◌, Bool, true, false, not, ◌&&◌, Option, none, some, List, [], ◌∷◌, ◌++◌,
  map, ltb, leb, ◌==◌, length, All, All-append, All-split, ◌≡◌, ◌≢◌, ◌↔◌, ◌⊎◌, ◌∙◌, refl, sym, ap,
  arith, Bool-cases, Option-cases, is_some, inl, inr,
}
use chromo_fold.Prelude.Words.{add64}
use chromo_fold.Qualification.Types.{Double}
use chromo_fold.Rc1.{Call, records, measures, sets, step, run}
use chromo_fold.Rc1.Types.{pass, MemorySample, Config, RequestEvent, Runtime, LongDouble}
use chromo_fold.Rc1.Evidence.{
  create, count_flag, recorded, has_texts, has_negative, text_present, accounted, record_request,
  record_memory, percentile95, decide, finalize,
}
use chromo_fold.Rc1.Seen.{
  IsUnflagged, is_text, Seen, is_whole, ttft_of, inter_token_of, error_of, see, seen, nothing,
  Passes,
}

abbrev pub IsClean : {Real : Type 0} → Runtime Real → Type 0
IsClean r =
    (r.prompt_leaks ≡ 0)
    × (r.correctness_failures ≡ 0)
    × (r.cuda_errors ≡ 0)
    × (r.cross_tenant_contamination ≡ 0)

-- No count exceeds the requests, of which there are at most as many as configured.
abbrev IsCounted : {Real : Type 0} → Runtime Real → Type 0
IsCounted r =
    (r.prompt_leaks ≤ length r.ttft)
    × (r.correctness_failures ≤ length r.ttft)
    × (r.cuda_errors ≤ length r.ttft)
    × (r.cross_tenant_contamination ≤ length r.ttft)
    × (length r.ttft ≤ r.config.max_requests)
    × (r.config.max_requests < 18446744073709551616)

count_flag_lem :
    (flag count : ℕ)
    → count < 18446744073709551615
    → (count_flag flag count ≤ suc count)
      × ((count_flag flag count ≡ 0) ↔ ((flag ≡ 0) × (count ≡ 0)))
unfolding add64
count_flag_lem flag count h = ground arith

length-snoc : {A : Type 0} → (xs : List A) (x : A) → length (xs ++ x ∷ []) ≡ suc (length xs)
length-snoc [] x = refl
length-snoc (y ∷ xs) x = ap suc (length-snoc xs x)

map-snoc :
    {A B : Type 0} → (f : A → B) (xs : List A) (x : A) → map f (xs ++ x ∷ []) ≡ map f xs ++ f x ∷ []
map-snoc f [] x = refl
map-snoc f (y ∷ xs) x = ap (λ zs. f y ∷ zs) (map-snoc f xs x)

length-map : {A B : Type 0} → (f : A → B) (xs : List A) → length (map f xs) ≡ length xs
length-map f [] = refl
length-map f (x ∷ xs) = ap suc (length-map f xs)

All-snoc :
    {Real : Type 0}
    → (es : List (RequestEvent Real)) (e : RequestEvent Real)
    → All IsUnflagged (es ++ e ∷ []) ↔ (All IsUnflagged es × IsUnflagged e)
All-snoc es e = (
  λ h. let s = All-split IsUnflagged es (e ∷ []) h in (s.0, s.1.0),
  λ h. All-append IsUnflagged es (e ∷ []) h.0 (h.1, tt),
)

module _ (d : Double) where
  open d use {Real, lt}

  recorded-IsCounted :
      (r : Runtime Real) (e : RequestEvent Real)
      → length r.ttft < r.config.max_requests
      → IsCounted r
      → IsCounted (recorded d r e)
  unfolding recorded
  recorded-IsCounted r e h (p, c, q, t, m, k) =
      let n = length-snoc r.ttft e.ttft_ms in
      let f = λ (flag count : ℕ) (i : count ≤ length r.ttft).
        (count_flag_lem flag count (omega arith)).0 in
      (
        omega (arith, n, f e.prompt_content_present r.prompt_leaks p),
        omega (arith, n, f e.correctness_failure r.correctness_failures c),
        omega (arith, n, f e.cuda_error r.cuda_errors q),
        omega (arith, n, f e.cross_tenant_contamination r.cross_tenant_contamination t),
        omega (arith, n, h),
        k,
      )

  recorded-IsClean :
      (r : Runtime Real) (e : RequestEvent Real)
      → length r.ttft < r.config.max_requests
      → IsCounted r
      → IsClean (recorded d r e) ↔ (IsUnflagged e × IsClean r)
  unfolding recorded
  recorded-IsClean r e h (p, c, q, t, m, k) =
      let f = λ (flag count : ℕ) (i : count ≤ length r.ttft).
        (count_flag_lem flag count (omega arith)).1 in
      let f0 = f e.prompt_content_present r.prompt_leaks p in
      let f1 = f e.correctness_failure r.correctness_failures c in
      let f2 = f e.cuda_error r.cuda_errors q in
      let f3 = f e.cross_tenant_contamination r.cross_tenant_contamination t in
      (
        λ (u, v, w, x).
            let (p0, p1) = f0.0 u in
            let (c0, c1) = f1.0 v in
            let (q0, q1) = f2.0 w in let (t0, t1) = f3.0 x in ((p0, c0, q0, t0), (p1, c1, q1, t1)),
        λ ((p0, c0, q0, t0), (p1, c1, q1, t1)).
            (f0.1 (p0, p1), f1.1 (c0, c1), f2.1 (q0, q1), f3.1 (t0, t1)),
      )

  -- The account has a request taken up exactly where the code does.
  is_text_lem : (t : Option (List ℕ)) → text_present t ≡ is_text t
  unfolding text_present
  is_text_lem none = refl
  is_text_lem (some []) = refl
  is_text_lem (some (b ∷ bs)) = ground arith

  is_whole_lem : (e : RequestEvent Real) → is_whole d e ≡ (has_texts d e && not (has_negative d e))
  unfolding has_texts has_negative
  is_whole_lem e = ground (
    arith,
    is_text_lem e.trace_id,
    is_text_lem e.request_id,
    is_text_lem e.tenant_id,
    is_text_lem e.model_id,
    is_text_lem e.worker_id,
    is_text_lem e.release_digest,
  )

  not_whole :
      (r : Runtime Real) (e : RequestEvent Real)
      → is_whole d e ≡ false
      → (ltb (length r.ttft) r.config.max_requests && is_whole d e) ≡ false
  not_whole r e h = ground arith

  request_cases :
      (r : Runtime Real) (e : RequestEvent Real)
      → ((ltb (length r.ttft) r.config.max_requests ≡ true)
          × (is_whole d e ≡ true)
          × ((record_request d r e).0 ≡ recorded d r e))
        ⊎ (((ltb (length r.ttft) r.config.max_requests && is_whole d e) ≡ false)
            × ((record_request d r e).0 ≡ r))
  unfolding record_request
  request_cases r e = elim (Bool-cases (leb r.config.max_requests (length r.ttft))) [
    | inl t ↦ rw t (inr (ground arith, refl))
    | inr t ↦ elim (Bool-cases (has_texts d e)) [
      | inl u ↦ elim (Bool-cases (has_negative d e)) [
        | inl v ↦ rw (t, u, v) (inr (not_whole r e (is_whole_lem e ∙ rw (u, v) refl), refl))
        | inr v ↦ rw (t, u, v) (inl (ground arith, is_whole_lem e ∙ rw (u, v) refl, refl))
      ]
      | inr u ↦ rw (t, u) (inr (not_whole r e (is_whole_lem e ∙ rw u refl), refl))
    ]
  ]

  -- The runtime has what the account has.
  abbrev Agrees : Config Real → Seen Real → Runtime Real → Type 0
  Agrees k s r =
      (r.config ≡ k)
      × (r.ttft ≡ map (ttft_of d) s.events)
      × (r.inter_token ≡ map (inter_token_of d) s.events)
      × (IsClean r ↔ All IsUnflagged s.events)
      × (r.unreconciled_references ≡ s.references)
      × (r.memory_recorded ≡ is_some s.memory_error)
      × ((x : Real) → s.memory_error ≡ some x → r.memory_error_ratio ≡ x)

  recorded-Agrees :
      (k : Config Real) (s : Seen Real) (r : Runtime Real) (e : RequestEvent Real)
      → length r.ttft < r.config.max_requests
      → IsCounted r
      → Agrees k s r
      → Agrees k (record s { events = s.events ++ e ∷ [] }) (recorded d r e)
  unfolding recorded
  recorded-Agrees k s r e h c (a0, a1, a2, a3, a4, a5, a6) =
      let g = recorded-IsClean r e h c in
      let n = All-snoc s.events e in
      (
        a0,
        ap (λ (x : List Real). x ++ e.ttft_ms ∷ []) a1 ∙ sym (map-snoc (ttft_of d) s.events e),
        ap (λ (x : List Real). x ++ e.inter_token_ms ∷ []) a2
            ∙ sym (map-snoc (inter_token_of d) s.events e),
        (λ u. let (w, x) = g.0 u in n.1 (a3.0 x, w), λ u. let (x, w) = n.0 u in g.1 (w, a3.1 x)),
        a4,
        a5,
        a6,
      )

  -- What a passing runtime has.
  abbrev IsWithin : Runtime Real → Type 0
  IsWithin r =
      (length r.ttft ≢ 0)
      × (r.memory_recorded ≡ true)
      × (r.unreconciled_references ≡ 0)
      × (lt r.config.max_ttft_p95_ms (percentile95 d r.ttft) ≡ false)
      × (lt r.config.max_inter_token_p95_ms (percentile95 d r.inter_token) ≡ false)
      × (lt r.config.max_memory_error_ratio r.memory_error_ratio ≡ false)

  decide_iff : (r : Runtime Real) → (decide d r ≡ pass) ↔ (IsClean r × IsWithin r)
  unfolding decide
  decide_iff r = ground arith

  Agrees-pass :
      (k : Config Real) (s : Seen Real) (r : Runtime Real)
      → Agrees k s r
      → (decide d r ≡ pass) ↔ Passes d k s
  Agrees-pass k s r (a0, a1, a2, a3, a4, a5, a6) =
      let g = decide_iff r in
      let n = ap length a1 ∙ length-map (ttft_of d) s.events in
      let t1 =
        ap (λ (q : Config Real). lt q.max_ttft_p95_ms (percentile95 d r.ttft)) a0
        ∙ ap (λ (x : List Real). lt k.max_ttft_p95_ms (percentile95 d x)) a1 in
      let t2 =
        ap (λ (q : Config Real). lt q.max_inter_token_p95_ms (percentile95 d r.inter_token)) a0
        ∙ ap (λ (x : List Real). lt k.max_inter_token_p95_ms (percentile95 d x)) a2 in
      let t3 = λ (v : Real) (e : s.memory_error ≡ some v).
        ap (λ (q : Config Real). lt q.max_memory_error_ratio r.memory_error_ratio) a0
        ∙ ap (λ (x : Real). lt k.max_memory_error_ratio x) (a6 v e) in
      (
        λ p.
            let (c, (z, m, u, x, y, w)) = g.0 p in
            elim (Option-cases s.memory_error) [
              | inl e ↦ absurd (true≢false (sym m ∙ a5 ∙ ap is_some e))
              | inr (v, e) ↦ (
                a3.0 c,
                λ q. z (n ∙ q),
                sym a4 ∙ u,
                (v, e, sym (t3 v e) ∙ w),
                sym t1 ∙ x,
                sym t2 ∙ y,
              )
            ],
        λ (c, z, u, (v, e, w), x, y).
            g.1
              (a3.1 c, (λ q. z (sym n ∙ q), a5 ∙ ap is_some e, a4 ∙ u, t1 ∙ x, t2 ∙ y, t3 v e ∙ w)),
      )

  module _ (l : LongDouble d) where
    record_request-Agrees :
        (k : Config Real) (s : Seen Real) (r : Runtime Real) (e : RequestEvent Real)
        → IsCounted r
        → Agrees k s r
        → IsCounted (record_request d r e).0
          × Agrees k (see d l k s (records e)) (record_request d r e).0
    record_request-Agrees k s r e c a =
        let n : length r.ttft ≡ length s.events = ap length a.1 ∙ length-map (ttft_of d) s.events in
        let same : ltb (length r.ttft) r.config.max_requests
            ≡ ltb (length s.events) k.max_requests =
          ap (λ (m : ℕ). ltb m r.config.max_requests) n
          ∙ ap (λ (q : Config Real). ltb (length s.events) q.max_requests) a.0 in
        elim (request_cases r e) [
          | inl (t, u, q) ↦
              let h : length r.ttft < r.config.max_requests = ground arith in
              rw (q, see, sym same ∙ t, u)
                (recorded-IsCounted r e h c, recorded-Agrees k s r e h c a)
          | inr (t, q) ↦ rw (q, see, sym (ap (λ (b : Bool). b && is_whole d e) same) ∙ t) (c, a)
        ]

    record_memory-Agrees :
        (k : Config Real) (s : Seen Real) (r : Runtime Real) (m : MemorySample)
        → IsCounted r
        → Agrees k s r
        → IsCounted (record_memory d l r m).0
          × Agrees k (see d l k s (measures m)) (record_memory d l r m).0
    unfolding record_memory accounted
    record_memory-Agrees k s r m c a = elim (Bool-cases (m.observed_vram_bytes == 0)) [
      | inl t ↦ rw t (c, a)
      | inr t ↦
          rw t (c, (a.0, a.1, a.2, a.3, a.4, refl, λ x e. some-injective (error_of d l m) x e))
    ]

    sum_lem : (a b c e : ℕ) → add64 (add64 (add64 a b) c) e ≡ (a + b + c + e) % 18446744073709551616
    unfolding add64
    sum_lem a b c e = omega arith

    step-Agrees :
        (k : Config Real) (s : Seen Real) (r : Runtime Real) (c : Call Real)
        → IsCounted r
        → Agrees k s r
        → IsCounted (step d l r c) × Agrees k (see d l k s c) (step d l r c)
    step-Agrees k s r (records e) c a = record_request-Agrees k s r e c a
    step-Agrees k s r (measures m) c a = record_memory-Agrees k s r m c a
    step-Agrees k s r (sets x) c a = (
      c,
      (
        a.0,
        a.1,
        a.2,
        a.3,
        sum_lem x.page_refs x.snapshot_refs x.lease_refs x.request_refs,
        a.5,
        a.6,
      ),
    )

    run-Agrees :
        (k : Config Real) (s : Seen Real) (r : Runtime Real) (cs : List (Call Real))
        → IsCounted r
        → Agrees k s r
        → Agrees k (seen d l k s cs) (run d l r cs)
    run-Agrees k s r [] c a = a
    run-Agrees k s r (x ∷ cs) c a =
        let (c', a') = step-Agrees k s r x c a in
        run-Agrees k (see d l k s x) (step d l r x) cs c' a'

    create-Agrees :
        (k : Config Real) (r : Runtime Real)
        → create d k ≡ some r
        → k.max_requests < 18446744073709551616
        → IsCounted r × Agrees k (nothing d) r
    unfolding create
    create-Agrees k r e h = (
      ground arith,
      (
        ground arith,
        ground arith,
        ground arith,
        (λ u. tt, λ u. ground arith),
        ground arith,
        ground arith,
        λ x m. absurd (ground arith),
      ),
    )

    -- After any calls on a created runtime whose limit on requests has 64 bits, the decision is
    -- PASS exactly when, by the calls alone, at least one request was taken up and none raised a
    -- flag, the last reference sample has the sum 0 modulo 2^64 or there was none, there was a
    -- memory sample with observed bytes and the error of the last is not tested greater than its
    -- limit, nor are the 95th percentiles of the times of the requests taken up. A request is
    -- taken up while there is room, if its six texts are there and no time is tested below 0.
    pub pass_iff :
        (k : Config Real) (r : Runtime Real) (cs : List (Call Real))
        → create d k ≡ some r
        → k.max_requests < 18446744073709551616
        → ((finalize d (run d l r cs)).decision ≡ pass) ↔ Passes d k (seen d l k (nothing d) cs)
    unfolding finalize
    pass_iff k r cs e h =
        let (c, a) = create-Agrees k r e h in
        Agrees-pass k (seen d l k (nothing d) cs) (run d l r cs) (run-Agrees k (nothing d) r cs c a)
