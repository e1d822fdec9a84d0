-- ===== src/Qualification/Evaluate.antt =====
-- Percentiles and the evaluation in src/qualification.cpp.
use chromo_fold.Prelude.{
  ℕ, ◌-◌, ◌/◌, Bool, ◌&&◌, ◌||◌, Option, none, some, List, [], ◌∷◌, max, min, ltb, leb, ◌==◌,
  if◌then◌else◌, length, get_elem?,
}
use chromo_fold.Prelude.Words.{add64, sub64}
use chromo_fold.Qualification.Types.{Double, RequestMeasurement, SloPolicy, Result, Runtime}

-- std::sort
unfoldable pub place : ℕ → List ℕ → List ℕ
place v [] = v ∷ []
place v (x ∷ xs) = if leb v x then v ∷ x ∷ xs else x ∷ place v xs

unfoldable pub sort : List ℕ → List ℕ
unfolding place
sort [] = []
sort (x ∷ xs) = place x (sort xs)

-- values[i], where i is in range.
unfoldable pub at : List ℕ → ℕ → ℕ
at xs i = elim (get_elem? xs i) [ none ↦ 0 | some v ↦ v ]

ttft_of : RequestMeasurement → ℕ
ttft_of m =
    add64
      (add64 (add64 (add64 (add64 m.queue_us m.route_us) m.prefill_us) m.encode_us) m.transfer_us)
      m.decode_attach_us

per_token : RequestMeasurement → ℕ
per_token m = if m.generated_tokens == 0 then 0 else m.decode_us / m.generated_tokens

unfoldable pub accounted : RequestMeasurement → ℕ
accounted m =
    add64
      (add64
        (add64 (add64 (add64 m.model_bytes m.kv_bytes) m.compressed_page_bytes) m.active_tail_bytes)
        m.transfer_buffer_bytes)
      m.allocator_reserved_bytes

delta_of : RequestMeasurement → ℕ
unfolding accounted
delta_of m =
    if ltb m.observed_vram_bytes (accounted m)
    then accounted m - m.observed_vram_bytes
    else m.observed_vram_bytes - accounted m

pub ttfts : List RequestMeasurement → List ℕ
ttfts [] = []
ttfts (m ∷ ms) = ttft_of m ∷ ttfts ms

pub token_latencies : List RequestMeasurement → List ℕ
token_latencies [] = []
token_latencies (m ∷ ms) = per_token m ∷ token_latencies ms

pub errors : List RequestMeasurement → ℕ
errors [] = 0
errors (m ∷ ms) = if m.error == 0 then errors ms else add64 (errors ms) 1

memory_delta : List RequestMeasurement → ℕ
unfolding delta_of
memory_delta [] = 0
memory_delta (m ∷ ms) = max (delta_of m) (memory_delta ms)

unfoldable pub refs_ok : Runtime → Bool
refs_ok r = r.page_refs == 0 && r.snapshot_refs == 0 && r.lease_refs == 0 && r.request_refs == 0

module _ (d : Double) where
  open d use {Real, of_nat, minus, times, over, le, lt, ceil95}

  unfoldable pub percentile95 : List ℕ → ℕ
  unfolding sort at
  percentile95 values =
      if length values == 0
      then 0
      else at (sort values) (min (sub64 (ceil95 (length values)) 1) (length values - 1))

  -- -1 is none, 1 and 0 are the Boolean.
  compare_regression : Real → Real → Real → Option Bool
  compare_regression baseline candidate maximum =
      if le baseline (of_nat 0) || lt candidate (of_nat 0) || lt maximum (of_nat 0)
      then none
      else some (le (times (over (minus candidate baseline) baseline) (of_nat 100)) maximum)

  pub availability : ℕ → ℕ → Real
  availability samples failures =
      if samples == 0
      then of_nat 0
      else over (times (of_nat 100) (of_nat (sub64 samples failures))) (of_nat samples)

  unfoldable pub slo_ok : Runtime → SloPolicy Real → Bool
  unfolding percentile95 availability
  slo_ok r p =
      leb (percentile95 (ttfts r.measurements)) p.ttft_p95_us
      && leb (percentile95 (token_latencies r.measurements)) p.inter_token_p95_us
      && le p.availability_percent (availability (length r.measurements) (errors r.measurements))

  unfoldable pub evaluate : Runtime → SloPolicy Real → Result Real
  unfolding slo_ok refs_ok memory_delta
  evaluate r p = record {
    samples = length r.measurements;
    errors = errors r.measurements;
    ttft_p95_us = percentile95 (ttfts r.measurements);
    inter_token_p95_us = percentile95 (token_latencies r.measurements);
    availability_percent = availability (length r.measurements) (errors r.measurements);
    deadline_success_percent = availability (length r.measurements) (errors r.measurements);
    memory_accounting_delta_bytes = memory_delta r.measurements;
    cardinality_bounded = r.cardinality_bounded;
    content_redacted = r.content_redacted;
    performance_within_policy = slo_ok r p;
    references_reconciled = refs_ok r;
    passed =
        leb p.minimum_samples (length r.measurements)
        && slo_ok r p
        && refs_ok r
        && r.content_redacted
        && r.cardinality_bounded;
  }
