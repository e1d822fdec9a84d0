-- ===== src/Qualification/Examples.antt =====
-- Verdicts of src/qualification.cpp, with whole numbers in place of those of type double.
use chromo_fold.Prelude.{
  ℕ, ◌+◌, ◌-◌, ◌*◌, ◌/◌, ◌≤◌, ◌≡◌, ◌↔◌, refl, true, none, some, [], ◌∷◌, ltb, leb, arith, List,
  length, elem,
}
use chromo_fold.Qualification.{Call, records, sets, run}
use chromo_fold.Qualification.Types.{Double, RequestMeasurement, SloPolicy, Runtime}
use chromo_fold.Qualification.Record.{create}
use chromo_fold.Qualification.Evaluate.{percentile95, evaluate}
use chromo_fold.Qualification.Percentiles.{IsCeil95, count_le, percentile95_covers}
use chromo_fold.Qualification.Verdict.{Qualifies, passed_iff}

abbrev whole : Double
whole = record {
  Real = ℕ;
  of_nat = λ n. n;
  plus = λ a b. a + b;
  minus = λ a b. a - b;
  times = λ a b. a * b;
  over = λ a b. a / b;
  le = leb;
  lt = ltb;
  ceil95 = λ n. (19 * n + 19) / 20;
}

whole-IsCeil95 : IsCeil95 whole.ceil95
whole-IsCeil95 n h = (omega arith, omega arith)

abbrev latencies : List ℕ
latencies = 30 ∷ 10 ∷ 20 ∷ []

percentile95_covers_example :
    (elem (percentile95 whole latencies) latencies ≡ true)
    × (19 * length latencies ≤ 20 * count_le (percentile95 whole latencies) latencies)
percentile95_covers_example =
    percentile95_covers whole latencies whole-IsCeil95 (omega arith) (omega arith)

abbrev measurement : RequestMeasurement
measurement = record {
  trace = record {
    trace_id = some (1 ∷ []);
    request_id = some (2 ∷ []);
    tenant_id = none;
    model_id = some (3 ∷ []);
    sequence_id = none;
    worker_id = none;
    release_version = some (4 ∷ []);
  };
  queue_us = 1;
  route_us = 1;
  prefill_us = 5;
  encode_us = 1;
  transfer_us = 1;
  decode_attach_us = 1;
  decode_us = 20;
  output_us = 1;
  prompt_tokens = 8;
  generated_tokens = 4;
  model_bytes = 10;
  kv_bytes = 10;
  compressed_page_bytes = 10;
  active_tail_bytes = 10;
  transfer_buffer_bytes = 10;
  allocator_reserved_bytes = 10;
  observed_vram_bytes = 60;
  error = 0;
  prompt_content_present = 0;
}

abbrev policy : SloPolicy ℕ
policy = record {
  ttft_p95_us = 100;
  inter_token_p95_us = 10;
  availability_percent = 99;
  deadline_success_percent = 99;
  minimum_samples = 1;
}

abbrev fresh : Runtime
fresh = record {
  max_series = 2;
  max_requests = 4;
  measurements = [];
  series = [];
  page_refs = 0;
  snapshot_refs = 0;
  lease_refs = 0;
  request_refs = 0;
  content_redacted = true;
  cardinality_bounded = true;
}

abbrev calls : List Call
calls = records measurement ∷ sets 0 0 0 0 ∷ []

passed_iff_example :
    (length (run fresh calls).measurements ≤ (run fresh calls).max_requests)
    × (((evaluate whole (run fresh calls) policy).passed ≡ true)
        ↔ Qualifies whole (run fresh calls) policy)
unfolding create
passed_iff_example = passed_iff whole 2 4 fresh calls policy refl
