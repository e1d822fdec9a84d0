-- ===== src/Rc1/Evidence.antt =====
-- The calls of src/rc1_runtime.cpp.
use chromo_fold.Prelude.{
  ℕ, ◌-◌, Bool, true, false, not, ◌&&◌, ◌||◌, Option, none, some, List, [], ◌∷◌, ◌++◌, min, leb,
  ◌==◌, if◌then◌else◌, length, get_elem?,
}
use chromo_fold.Prelude.Words.{add64, sub64}
use chromo_fold.Qualification.Types.{Double}
use chromo_fold.Rc1.Types.{
  Decision, pass, fail, incomplete, MemorySample, ReferenceSample, Config, RequestEvent, Summary,
  Runtime, Status, success, bad_sample, too_many, no_text, negative, LongDouble,
}

unfoldable pub text_present : Option (List ℕ) → Bool
text_present none = false
text_present (some text) = not (length text == 0)

-- count += flag != 0
abbrev pub count_flag : ℕ → ℕ → ℕ
count_flag flag count = if flag == 0 then count else add64 count 1

module _ (d : Double) where
  open d use {Real, of_nat, lt, ceil95}

  -- std::sort
  unfoldable pub place : Real → List Real → List Real
  place v [] = v ∷ []
  place v (x ∷ xs) = if lt x v then x ∷ place v xs else v ∷ x ∷ xs

  unfoldable pub sort : List Real → List Real
  unfolding place
  sort [] = []
  sort (x ∷ xs) = place x (sort xs)

  -- values[i], where i is in range.
  unfoldable pub at : List Real → ℕ → Real
  at xs i = elim (get_elem? xs i) [ none ↦ of_nat 0 | some v ↦ v ]

  unfoldable pub percentile95 : List Real → Real
  unfolding sort at
  percentile95 values =
      if length values == 0
      then of_nat 0
      else at (sort values) (min (sub64 (ceil95 (length values)) 1) (length values - 1))

  unfoldable pub create : Config Real → Option (Runtime Real)
  create k =
      if k.max_requests == 0 || k.max_metric_series == 0
      then none
      else some (record {
        config = k;
        ttft = [];
        inter_token = [];
        prompt_leaks = 0;
        correctness_failures = 0;
        cuda_errors = 0;
        cross_tenant_contamination = 0;
        unreconciled_references = 0;
        memory_error_ratio = of_nat 0;
        memory_recorded = false;
      })

  unfoldable pub recorded : Runtime Real → RequestEvent Real → Runtime Real
  recorded r e = record r {
    ttft = r.ttft ++ e.ttft_ms ∷ [];
    inter_token = r.inter_token ++ e.inter_token_ms ∷ [];
    prompt_leaks = count_flag e.prompt_content_present r.prompt_leaks;
    correctness_failures = count_flag e.correctness_failure r.correctness_failures;
    cuda_errors = count_flag e.cuda_error r.cuda_errors;
    cross_tenant_contamination =
        count_flag e.cross_tenant_contamination r.cross_tenant_contamination;
  }

  unfoldable pub has_texts : RequestEvent Real → Bool
  unfolding text_present
  has_texts e =
      text_present e.trace_id
      && text_present e.request_id
      && text_present e.tenant_id
      && text_present e.model_id
      && text_present e.worker_id
      && text_present e.release_digest

  unfoldable pub has_negative : RequestEvent Real → Bool
  has_negative e =
      lt e.ttft_ms (of_nat 0)
      || lt e.inter_token_ms (of_nat 0)
      || lt e.queue_ms (of_nat 0)
      || lt e.prefill_ms (of_nat 0)
      || lt e.transfer_ms (of_nat 0)
      || lt e.decode_ms (of_nat 0)

  unfoldable pub record_request : Runtime Real → RequestEvent Real → Runtime Real × Status
  record_request r e =
      if leb r.config.max_requests (length r.ttft)
      then (r, too_many)
      else if not (has_texts e)
      then (r, no_text)
      else if has_negative e
      then (r, negative)
      else (recorded r e, success)

  module _ (l : LongDouble d) where
    open l use {long, narrow, fabs}

    unfoldable pub accounted : MemorySample → long.Real
    accounted s =
        long.plus
          (long.plus
            (long.plus
              (long.plus (long.plus (long.of_nat s.model_bytes) (long.of_nat s.kv_bytes))
                (long.of_nat s.compressed_page_bytes))
              (long.of_nat s.active_tail_bytes))
            (long.of_nat s.transfer_buffer_bytes))
          (long.of_nat s.allocator_reserved_bytes)

    unfoldable pub record_memory : Runtime Real → MemorySample → Runtime Real × Status
    unfolding accounted
    record_memory r s =
        let observed = long.of_nat s.observed_vram_bytes in
        if s.observed_vram_bytes == 0 then (r, bad_sample) else (
          record r {
            memory_error_ratio =
                narrow (long.over (fabs (long.minus (accounted s) observed)) observed);
            memory_recorded = true;
          },
          success,
        )

  abbrev pub record_references : Runtime Real → ReferenceSample → Runtime Real
  record_references r s = record r {
    unreconciled_references =
        add64 (add64 (add64 s.page_refs s.snapshot_refs) s.lease_refs) s.request_refs;
  }

  unfoldable pub decide : Runtime Real → Decision
  unfolding percentile95
  decide r =
      if length r.ttft == 0 || not r.memory_recorded
      then incomplete
      else if not (r.prompt_leaks == 0)
          || not (r.correctness_failures == 0)
          || not (r.cuda_errors == 0)
          || not (r.cross_tenant_contamination == 0)
          || not (r.unreconciled_references == 0)
          || lt r.config.max_ttft_p95_ms (percentile95 r.ttft)
          || lt r.config.max_inter_token_p95_ms (percentile95 r.inter_token)
          || lt r.config.max_memory_error_ratio r.memory_error_ratio
      then fail
      else pass

  unfoldable pub finalize : Runtime Real → Summary Real
  unfolding decide
  finalize r = record {
    requests = length r.ttft;
    ttft_p95_ms = percentile95 r.ttft;
    inter_token_p95_ms = percentile95 r.inter_token;
    memory_error_ratio = r.memory_error_ratio;
    prompt_leaks = r.prompt_leaks;
    correctness_failures = r.correctness_failures;
    cuda_errors = r.cuda_errors;
    cross_tenant_contamination = r.cross_tenant_contamination;
    unreconciled_references = r.unreconciled_references;
    decision = decide r;
  }

-- cf_rc1_decision_name
decision_name : Decision → List ℕ
decision_name pass = 80 ∷ 65 ∷ 83 ∷ 83 ∷ []
decision_name fail = 70 ∷ 65 ∷ 73 ∷ 76 ∷ []
decision_name incomplete = 73 ∷ 78 ∷ 67 ∷ 79 ∷ 77 ∷ 80 ∷ 76 ∷ 69 ∷ 84 ∷ 69 ∷ []
