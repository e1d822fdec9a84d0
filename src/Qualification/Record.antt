-- ===== src/Qualification/Record.antt =====
-- Creation and the record of measurements in src/qualification.cpp.
use chromo_fold.Prelude.{
  ℕ, Bool, true, false, not, ◌&&◌, ◌||◌, Option, none, some, List, [], ◌∷◌, ◌++◌, ltb, leb, ◌==◌,
  if◌then◌else◌, length,
}
use chromo_fold.Qualification.Types.{RequestMeasurement, Runtime, Status, success, failure, full}
use chromo_fold.Qualification.ErrorCodes.{error_code_name}

nonempty : Option (List ℕ) → Bool
nonempty none = false
nonempty (some text) = not (length text == 0)

unfoldable pub create : ℕ → ℕ → Option Runtime
create max_series max_requests =
    if max_series == 0 || max_requests == 0
    then none
    else some (record {
      max_series = max_series;
      max_requests = max_requests;
      measurements = [];
      series = [];
      page_refs = 0;
      snapshot_refs = 0;
      lease_refs = 0;
      request_refs = 0;
      content_redacted = true;
      cardinality_bounded = true;
    })

-- std::string(pointer); the pointer is not null where the code builds the text.
abbrev text_of : Option (List ℕ) → List ℕ
text_of none = []
text_of (some text) = text

pub series_of : RequestMeasurement → List ℕ
series_of m =
    text_of m.trace.model_id ++ 58 ∷ error_code_name m.error ++ 58 ∷ text_of m.trace.release_version

same_text : List ℕ → List ℕ → Bool
same_text [] [] = true
same_text [] (c ∷ cs) = false
same_text (b ∷ bs) [] = false
same_text (b ∷ bs) (c ∷ cs) = b == c && same_text bs cs

in_series : List ℕ → List (List ℕ) → Bool
unfolding same_text
in_series text [] = false
in_series text (s ∷ ss) = same_text s text || in_series text ss

-- series.insert(text)
unfoldable pub insert_series : List ℕ → List (List ℕ) → List (List ℕ)
unfolding in_series
insert_series text ss = if in_series text ss then ss else text ∷ ss

unfoldable pub recorded : Runtime → RequestMeasurement → Runtime
recorded r m =
    let series = insert_series (series_of m) r.series in
    record r {
      series = series;
      cardinality_bounded =
          if ltb r.max_series (length series) then false else r.cardinality_bounded;
      content_redacted = if m.prompt_content_present == 0 then r.content_redacted else false;
      measurements = r.measurements ++ m ∷ [];
    }

unfoldable pub record_request : Runtime → RequestMeasurement → Runtime × Status
unfolding nonempty
record_request r m =
    if not (nonempty m.trace.trace_id)
      || not (nonempty m.trace.request_id)
      || not (nonempty m.trace.model_id)
      || not (nonempty m.trace.release_version)
    then (r, failure)
    else if leb r.max_requests (length r.measurements)
    then (r, full)
    else (recorded r m, success)

abbrev pub set_reference_state : Runtime → ℕ → ℕ → ℕ → ℕ → Runtime
set_reference_state r page_refs snapshot_refs lease_refs request_refs = record r {
  page_refs = page_refs;
  snapshot_refs = snapshot_refs;
  lease_refs = lease_refs;
  request_refs = request_refs;
}
