-- ===== src/Qualification/Verdict.antt =====
-- The verdict of src/qualification.cpp on the measurements of a run.
use chromo_fold.Prelude.{
  ℕ, suc, ◌≤◌, ◌<◌, true, some, List, [], ◌∷◌, ◌++◌, length, All, All-append, All-split, ◌≡◌, ◌↔◌,
  refl, ap, arith,
}
use chromo_fold.Qualification.{Call, records, sets, step, run}
use chromo_fold.Qualification.Types.{Double, RequestMeasurement, SloPolicy, Runtime}
use chromo_fold.Qualification.Record.{create, record_request, recorded, insert_series, series_of}
use chromo_fold.Qualification.Evaluate.{
  evaluate, slo_ok, refs_ok, percentile95, availability, ttfts, token_latencies, errors,
}

abbrev IsRedacted : RequestMeasurement → Type 0
IsRedacted m = m.prompt_content_present ≡ 0

-- The flags of a runtime say what its measurements say.
abbrev IsFaithful : Runtime → Type 0
IsFaithful r =
    (length r.measurements ≤ r.max_requests)
    × ((r.content_redacted ≡ true) ↔ All IsRedacted r.measurements)
    × ((r.cardinality_bounded ≡ true) ↔ (length r.series ≤ r.max_series))

length-insert : (text : List ℕ) (ss : List (List ℕ)) → length ss ≤ length (insert_series text ss)
unfolding insert_series
length-insert text ss = ground arith

length-snoc :
    (ms : List RequestMeasurement) (m : RequestMeasurement)
    → length (ms ++ m ∷ []) ≡ suc (length ms)
length-snoc [] m = refl
length-snoc (x ∷ ms) m = ap suc (length-snoc ms m)

All-snoc :
    (ms : List RequestMeasurement) (m : RequestMeasurement)
    → All IsRedacted (ms ++ m ∷ []) ↔ (All IsRedacted ms × IsRedacted m)
All-snoc ms m = (
  λ h. let s = All-split IsRedacted ms (m ∷ []) h in (s.0, s.1.0),
  λ h. All-append IsRedacted ms (m ∷ []) h.0 (h.1, tt),
)

recorded-IsFaithful :
    (r : Runtime) (m : RequestMeasurement)
    → length r.measurements < r.max_requests
    → IsFaithful r
    → IsFaithful (recorded r m)
unfolding recorded
recorded-IsFaithful r m l h = ground (
  arith,
  length-insert (series_of m) r.series,
  length-snoc r.measurements m,
  All-snoc r.measurements m,
)

step-IsFaithful : (r : Runtime) (c : Call) → IsFaithful r → IsFaithful (step r c)
unfolding record_request
step-IsFaithful r (records m) h = ground (arith, recorded-IsFaithful r m)
step-IsFaithful r (sets pages snapshots leases requests) h = h

run-IsFaithful : (r : Runtime) (cs : List Call) → IsFaithful r → IsFaithful (run r cs)
run-IsFaithful r [] h = h
run-IsFaithful r (c ∷ cs) h = run-IsFaithful (step r c) cs (step-IsFaithful r c h)

create-IsFaithful : (s n : ℕ) (r : Runtime) → create s n ≡ some r → IsFaithful r
unfolding create
create-IsFaithful s n r e = ground arith

module _ (d : Double) where
  open d use {Real, le}

  -- The conditions of a verdict.
  abbrev pub Qualifies : Runtime → SloPolicy Real → Type 0
  Qualifies r p =
      (p.minimum_samples ≤ length r.measurements)
      × (percentile95 d (ttfts r.measurements) ≤ p.ttft_p95_us)
      × (percentile95 d (token_latencies r.measurements) ≤ p.inter_token_p95_us)
      × (le p.availability_percent (availability d (length r.measurements) (errors r.measurements))
          ≡ true)
      × ((r.page_refs ≡ 0) × (r.snapshot_refs ≡ 0) × (r.lease_refs ≡ 0) × (r.request_refs ≡ 0))
      × All IsRedacted r.measurements
      × (length r.series ≤ r.max_series)

  faithful_passed :
      (r : Runtime) (p : SloPolicy Real)
      → IsFaithful r
      → ((evaluate d r p).passed ≡ true) ↔ Qualifies r p
  unfolding evaluate slo_ok refs_ok
  faithful_passed r p h = ground arith

  -- After any calls on a created runtime, the measurements are within the limit, and the verdict
  -- passes exactly when there are enough measurements, both 95th percentiles and the availability
  -- are within the policy, no reference is left, no measurement has prompt content, and the series
  -- are within their limit.
  pub passed_iff :
      (s n : ℕ) (r : Runtime) (cs : List Call) (p : SloPolicy Real)
      → create s n ≡ some r
      → (length (run r cs).measurements ≤ (run r cs).max_requests)
        × (((evaluate d (run r cs) p).passed ≡ true) ↔ Qualifies (run r cs) p)
  passed_iff s n r cs p e =
      let f = run-IsFaithful r cs (create-IsFaithful s n r e) in
      (f.0, faithful_passed (run r cs) p f)
