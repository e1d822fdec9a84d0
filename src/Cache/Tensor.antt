-- ===== src/Cache/Tensor.antt =====
-- cf_device_tensor_validate and scalar_bytes of src/cuda/device_kv_dataplane.cu, over the view of
-- include/chromofold/device_kv_dataplane.h. `has_data` says that the data pointer is not null.
use chromo_fold.Prelude.{ℕ, ◌-◌, Bool, not, ◌&&◌, ◌||◌, ltb, ◌==◌, if◌then◌else◌}
use chromo_fold.Prelude.Words.{add64, mul64}

pub record TensorView : Type 0 where
  pub has_data : Bool
  pub scalar_type : ℕ
  pub token_count : ℕ
  pub head_count : ℕ
  pub head_dim : ℕ
  pub token_stride_bytes : ℕ
  pub head_stride_bytes : ℕ
  pub element_stride_bytes : ℕ

scalar_bytes : ℕ → ℕ
scalar_bytes type = if type == 1 || type == 2 then 2 else if type == 3 then 4 else 0

-- The call returns 0.
unfoldable pub tensor_validate : TensorView → Bool
unfolding scalar_bytes
tensor_validate v =
    let width = scalar_bytes v.scalar_type in
    let row = mul64 (v.head_dim - 1) v.element_stride_bytes in
    v.has_data
    && not (v.token_count == 0)
    && not (v.head_count == 0)
    && not (v.head_dim == 0)
    && not (width == 0)
    && not (ltb v.element_stride_bytes width)
    && not (ltb v.head_stride_bytes (add64 row width))
    && not (
        ltb v.token_stride_bytes
          (add64 (add64 (mul64 (v.head_count - 1) v.head_stride_bytes) row) width))
