-- ===== src/Rc1/Examples.antt =====
-- Decisions of src/rc1_runtime.cpp, with whole numbers in place of those of type double.
use chromo_fold.Prelude.{
  ℕ, ◌+◌, ◌-◌, ◌*◌, ◌/◌, ◌≡◌, ◌↔◌, refl, false, some, List, [], ◌∷◌, ltb, leb, arith,
}
use chromo_fold.Qualification.Types.{Double}
use chromo_fold.Rc1.{Call, records, measures, sets, run}
use chromo_fold.Rc1.Types.{
  pass, fail, Config, RequestEvent, MemorySample, ReferenceSample, Runtime, LongDouble,
}
use chromo_fold.Prelude.Words.{add64, sub64}
use chromo_fold.Rc1.Evidence.{
  create, finalize, record_memory, record_request, has_texts, has_negative, recorded,
}
use chromo_fold.Rc1.Seen.{seen, nothing, Passes}
use chromo_fold.Rc1.Verdict.{pass_iff}

abbrev whole : Double
whole = record {
  Real = ℕ;
  of_nat = λ n. n;
  plus = λ a b. a + b;
  minus = λ a b. a - b;
  times = λ a b. a * b;
  over = λ a b. a / b;
  le = leb;
  lt = ltb;
  ceil95 = λ n. (19 * n + 19) / 20;
}

abbrev long_whole : LongDouble whole
long_whole = record { long = whole; narrow = λ n. n; fabs = λ n. n }

abbrev config : Config ℕ
config = record {
  max_requests = 4;
  max_metric_series = 2;
  max_ttft_p95_ms = 100;
  max_inter_token_p95_ms = 10;
  max_memory_error_ratio = 1;
}

abbrev event : RequestEvent ℕ
event = record {
  trace_id = some (1 ∷ []);
  request_id = some (2 ∷ []);
  tenant_id = some (3 ∷ []);
  model_id = some (4 ∷ []);
  worker_id = some (5 ∷ []);
  release_digest = some (6 ∷ []);
  queue_ms = 1;
  prefill_ms = 2;
  transfer_ms = 1;
  decode_ms = 5;
  ttft_ms = 40;
  inter_token_ms = 5;
  prompt_tokens = 8;
  completion_tokens = 4;
  prompt_content_present = 0;
  correctness_failure = 0;
  cuda_error = 0;
  cross_tenant_contamination = 0;
}

abbrev memory : MemorySample
memory = record {
  model_bytes = 10;
  kv_bytes = 10;
  compressed_page_bytes = 10;
  active_tail_bytes = 10;
  transfer_buffer_bytes = 10;
  allocator_reserved_bytes = 10;
  observed_vram_bytes = 60;
}

abbrev fresh : Runtime ℕ
fresh = record {
  config = config;
  ttft = [];
  inter_token = [];
  prompt_leaks = 0;
  correctness_failures = 0;
  cuda_errors = 0;
  cross_tenant_contamination = 0;
  unreconciled_references = 0;
  memory_error_ratio = 0;
  memory_recorded = false;
}

abbrev calls : List (Call ℕ)
calls =
    records event
    ∷ measures memory
    ∷ sets (record { page_refs = 0; snapshot_refs = 0; lease_refs = 0; request_refs = 0 })
    ∷ []

passes : (finalize whole (run whole long_whole fresh calls)).decision ≡ pass
unfolding finalize record_memory record_request has_texts has_negative recorded add64 sub64
passes = refl

-- References that wrap to 0 count as reconciled.
abbrev wrapped : ReferenceSample
wrapped = record {
  page_refs = 18446744073709551615;
  snapshot_refs = 1;
  lease_refs = 0;
  request_refs = 0;
}

passes_wrapped :
    (finalize whole
      (run whole long_whole fresh (records event ∷ measures memory ∷ sets wrapped ∷ []))).decision
    ≡ pass
unfolding finalize record_memory record_request has_texts has_negative recorded add64 sub64
passes_wrapped = refl

abbrev leaking : RequestEvent ℕ
leaking = record event { prompt_content_present = 1 }

fails : (finalize whole (run whole long_whole fresh (records leaking ∷ calls))).decision ≡ fail
unfolding finalize record_memory record_request has_texts has_negative recorded add64
fails = refl

pass_iff_example :
    ((finalize whole (run whole long_whole fresh calls)).decision ≡ pass)
    ↔ Passes whole config (seen whole long_whole config (nothing whole) calls)
unfolding create
pass_iff_example = pass_iff whole long_whole config fresh calls refl (omega arith)
