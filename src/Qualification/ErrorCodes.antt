-- ===== src/Qualification/ErrorCodes.antt =====
-- cf_error_code and the names of its codes in src/qualification.cpp, as lists of bytes.
use chromo_fold.Prelude.{ℕ, List, [], ◌∷◌, ◌==◌, if◌then◌else◌}

-- "none"
abbrev none_text : List ℕ
none_text = 110 ∷ 111 ∷ 110 ∷ 101 ∷ []

-- "admission_quota"
abbrev admission_quota_text : List ℕ
admission_quota_text =
    97 ∷ 100 ∷ 109 ∷ 105 ∷ 115 ∷ 115 ∷ 105 ∷ 111 ∷ 110 ∷ 95 ∷ 113 ∷ 117 ∷ 111 ∷ 116 ∷ 97 ∷ []

-- "admission_overload"
abbrev admission_overload_text : List ℕ
admission_overload_text =
    97 ∷ 100 ∷ 109 ∷ 105 ∷ 115 ∷ 115 ∷ 105 ∷ 111 ∷ 110 ∷ 95 ∷ 111 ∷ 118 ∷ 101 ∷ 114 ∷ 108 ∷ 111 ∷ 97
    ∷ 100 ∷ []

-- "worker_unavailable"
abbrev worker_unavailable_text : List ℕ
worker_unavailable_text =
    119 ∷ 111 ∷ 114 ∷ 107 ∷ 101 ∷ 114 ∷ 95 ∷ 117 ∷ 110 ∷ 97 ∷ 118 ∷ 97 ∷ 105 ∷ 108 ∷ 97 ∷ 98 ∷ 108
    ∷ 101 ∷ []

-- "transfer_auth"
abbrev transfer_auth_text : List ℕ
transfer_auth_text = 116 ∷ 114 ∷ 97 ∷ 110 ∷ 115 ∷ 102 ∷ 101 ∷ 114 ∷ 95 ∷ 97 ∷ 117 ∷ 116 ∷ 104 ∷ []

-- "transfer_integrity"
abbrev transfer_integrity_text : List ℕ
transfer_integrity_text =
    116 ∷ 114 ∷ 97 ∷ 110 ∷ 115 ∷ 102 ∷ 101 ∷ 114 ∷ 95 ∷ 105 ∷ 110 ∷ 116 ∷ 101 ∷ 103 ∷ 114 ∷ 105
    ∷ 116 ∷ 121 ∷ []

-- "lease_stale"
abbrev lease_stale_text : List ℕ
lease_stale_text = 108 ∷ 101 ∷ 97 ∷ 115 ∷ 101 ∷ 95 ∷ 115 ∷ 116 ∷ 97 ∷ 108 ∷ 101 ∷ []

-- "checkpoint_incompatible"
abbrev checkpoint_incompatible_text : List ℕ
checkpoint_incompatible_text =
    99 ∷ 104 ∷ 101 ∷ 99 ∷ 107 ∷ 112 ∷ 111 ∷ 105 ∷ 110 ∷ 116 ∷ 95 ∷ 105 ∷ 110 ∷ 99 ∷ 111 ∷ 109 ∷ 112
    ∷ 97 ∷ 116 ∷ 105 ∷ 98 ∷ 108 ∷ 101 ∷ []

-- "cuda_oom"
abbrev cuda_oom_text : List ℕ
cuda_oom_text = 99 ∷ 117 ∷ 100 ∷ 97 ∷ 95 ∷ 111 ∷ 111 ∷ 109 ∷ []

-- "cuda_runtime"
abbrev cuda_runtime_text : List ℕ
cuda_runtime_text = 99 ∷ 117 ∷ 100 ∷ 97 ∷ 95 ∷ 114 ∷ 117 ∷ 110 ∷ 116 ∷ 105 ∷ 109 ∷ 101 ∷ []

-- "release_incompatible"
abbrev release_incompatible_text : List ℕ
release_incompatible_text =
    114 ∷ 101 ∷ 108 ∷ 101 ∷ 97 ∷ 115 ∷ 101 ∷ 95 ∷ 105 ∷ 110 ∷ 99 ∷ 111 ∷ 109 ∷ 112 ∷ 97 ∷ 116 ∷ 105
    ∷ 98 ∷ 108 ∷ 101 ∷ []

-- "unknown"
abbrev unknown_text : List ℕ
unknown_text = 117 ∷ 110 ∷ 107 ∷ 110 ∷ 111 ∷ 119 ∷ 110 ∷ []

pub error_code_name : ℕ → List ℕ
error_code_name code =
    if code == 0
    then none_text
    else if code == 1
    then admission_quota_text
    else if code == 2
    then admission_overload_text
    else if code == 3
    then worker_unavailable_text
    else if code == 4
    then transfer_auth_text
    else if code == 5
    then transfer_integrity_text
    else if code == 6
    then lease_stale_text
    else if code == 7
    then checkpoint_incompatible_text
    else if code == 8
    then cuda_oom_text
    else if code == 9
    then cuda_runtime_text
    else if code == 10
    then release_incompatible_text
    else unknown_text
