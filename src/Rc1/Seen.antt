-- ===== src/Rc1/Seen.antt =====
-- What the calls of a run of src/rc1_runtime.cpp amount to: an account of the evidence by the calls alone.
use chromo_fold.Prelude.{
  ℕ, ◌+◌, ◌%◌, Bool, true, false, not, ◌&&◌, Option, none, some, List, [], ◌∷◌, ◌++◌, map, All, ltb,
  ◌==◌, if◌then◌else◌, length, ◌≡◌, ◌≢◌,
}
use chromo_fold.Qualification.Types.{Double}
use chromo_fold.Rc1.{Call, records, measures, sets}
use chromo_fold.Rc1.Types.{Config, RequestEvent, MemorySample, LongDouble}
use chromo_fold.Rc1.Evidence.{percentile95}

-- A request that raises no flag.
abbrev pub IsUnflagged : {Real : Type 0} → RequestEvent Real → Type 0
IsUnflagged e =
    (e.prompt_content_present ≡ 0)
    × (e.correctness_failure ≡ 0)
    × (e.cuda_error ≡ 0)
    × (e.cross_tenant_contamination ≡ 0)

-- A text with at least one byte.
abbrev pub is_text : Option (List ℕ) → Bool
is_text none = false
is_text (some []) = false
is_text (some (b ∷ bs)) = true

abbrev each : {A : Type 0} → (A → Bool) → List A → Bool
each f [] = true
each f (x ∷ xs) = f x && each f xs

-- The requests that are taken up, the last sum of references, and the last memory error.
pub record Seen (Real : Type 0) : Type 0 where
  pub events : List (RequestEvent Real)
  pub references : ℕ
  pub memory_error : Option Real

module _ (d : Double) where
  open d use {Real, of_nat, lt}

  -- All six texts, and no time below 0.
  abbrev pub is_whole : RequestEvent Real → Bool
  is_whole e =
      each is_text
        (e.trace_id ∷ e.request_id ∷ e.tenant_id ∷ e.model_id ∷ e.worker_id ∷ e.release_digest ∷ [])
      && each (λ (t : Real). not (lt t (of_nat 0)))
          (e.ttft_ms ∷ e.inter_token_ms ∷ e.queue_ms ∷ e.prefill_ms ∷ e.transfer_ms ∷ e.decode_ms
            ∷ [])

  abbrev pub ttft_of : RequestEvent Real → Real
  ttft_of e = e.ttft_ms

  abbrev pub inter_token_of : RequestEvent Real → Real
  inter_token_of e = e.inter_token_ms

  module _ (l : LongDouble d) where
    open l use {long, narrow, fabs}

    -- The distance of the six counts from the observed one, over the observed one.
    abbrev pub error_of : MemorySample → Real
    error_of m =
        let sum =
          long.plus
            (long.plus
              (long.plus
                (long.plus (long.plus (long.of_nat m.model_bytes) (long.of_nat m.kv_bytes))
                  (long.of_nat m.compressed_page_bytes))
                (long.of_nat m.active_tail_bytes))
              (long.of_nat m.transfer_buffer_bytes))
            (long.of_nat m.allocator_reserved_bytes) in
        let observed = long.of_nat m.observed_vram_bytes in
        narrow (long.over (fabs (long.minus sum observed)) observed)

    abbrev pub see : Config Real → Seen Real → Call Real → Seen Real
    see k s (records e) =
        if ltb (length s.events) k.max_requests && is_whole e
        then record s { events = s.events ++ e ∷ [] }
        else s
    see k s (measures m) =
        if m.observed_vram_bytes == 0 then s else record s { memory_error = some (error_of m) }
    see k s (sets x) = record s {
      references =
          (x.page_refs + x.snapshot_refs + x.lease_refs + x.request_refs) % 18446744073709551616;
    }

    abbrev pub seen : Config Real → Seen Real → List (Call Real) → Seen Real
    seen k s [] = s
    seen k s (c ∷ cs) = seen k (see k s c) cs

  abbrev pub nothing : Seen Real
  nothing = record { events = []; references = 0; memory_error = none }

  -- What a release may be passed on.
  abbrev pub Passes : Config Real → Seen Real → Type 0
  Passes k s =
      All IsUnflagged s.events
      × (length s.events ≢ 0)
      × (s.references ≡ 0)
      × ((x : Real) × (s.memory_error ≡ some x) × (lt k.max_memory_error_ratio x ≡ false))
      × (lt k.max_ttft_p95_ms (percentile95 d (map ttft_of s.events)) ≡ false)
      × (lt k.max_inter_token_p95_ms (percentile95 d (map inter_token_of s.events)) ≡ false)
