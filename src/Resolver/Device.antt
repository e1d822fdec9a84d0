-- ===== src/Resolver/Device.antt =====
-- Buffers, checked calls of CUDA and descriptor tables in src/cuda/multisequence_cuda_resolver.cu.
-- The results of cudaFree and cudaFreeAsync are not read there, so they have none here.
use chromo_fold.Prelude.{
  ℕ, zero, suc, Bool, true, false, not, ◌&&◌, none, some, List, [], ◌∷◌, max, ltb, ◌==◌,
  if◌then◌else◌, length,
}
use chromo_fold.Prelude.Words.{add64, mul64, mul32}
use chromo_fold.Prelude.Map.{Map, find}
use chromo_fold.Resolver.Types.{
  Buffer, SharedPage, PageRef, LayerState, cuda_failure, unavailable_page, refused, not_ready, done,
  Resolver, Pass, passes, stops,
}

-- One call of CUDA has answered.
abbrev pub called : Resolver → Resolver
called r = record r { device = λ n. r.device (suc n) }

-- cuda_check, where a call is made for its status alone
unfoldable pub cuda_check : {A : Type 0} → A → Resolver → Pass A
cuda_check a r = elim (r.device 0) [
  | refused ↦ stops cuda_failure a (called r)
  | not_ready ↦ stops cuda_failure a (called r)
  | done n ↦ passes a (called r)
]

unfoldable pub released : Buffer → Buffer
released b = if b.ptr == 0 then b else record { ptr = 0; bytes = 0 }

unfoldable pub allocate : ℕ → Buffer → Resolver → Pass Buffer
unfolding released
allocate requested b r =
    if not (b.ptr == 0) && requested == b.bytes
    then passes b r
    else if requested == 0
    then passes (released b) r
    else elim (r.device 0) [
      | refused ↦ stops cuda_failure (released b) (called r)
      | not_ready ↦ stops cuda_failure (released b) (called r)
      | done n ↦ passes (record { ptr = n; bytes = requested }) (called r)
    ]

-- Every reference is to a page that is there and not retired.
pub are_available : List PageRef → Map SharedPage → Bool
are_available [] pages = true
are_available (ref ∷ refs) pages = elim (find ref.page_id pages) [
  | none ↦ false
  | some p ↦ not p.retired && are_available refs pages
]

-- while (capacity < size) capacity *= 2;
unfoldable pub grow : ℕ → ℕ → ℕ → ℕ
grow zero capacity size = capacity
grow (suc fuel) capacity size =
    let rest = grow fuel (mul32 capacity 2) size in if ltb capacity size then rest else capacity

unfoldable pub new_capacity : LayerState → ℕ
unfolding grow
new_capacity l =
    grow 32 (max 4 (if l.descriptor_capacity == 0 then 4 else mul32 l.descriptor_capacity 2))
      (length l.pages)

unfoldable pub count_rebuild : Resolver → Resolver
count_rebuild r = record r {
  counters = record r.counters {
    descriptor_table_rebuilds = add64 r.counters.descriptor_table_rebuilds 1;
  };
}

unfoldable pub enlarge : LayerState → Resolver → Pass LayerState
unfolding new_capacity allocate count_rebuild
enlarge l r =
    if not (ltb l.descriptor_capacity (length l.pages))
    then passes l r
    else elim (allocate (mul64 (new_capacity l) 88) l.descriptors r) [
      | stops e b r' ↦ stops e (record l { descriptors = b }) r'
      | passes b r' ↦
          passes (record l { descriptors = b; descriptor_capacity = new_capacity l })
            (count_rebuild r')
    ]

unfoldable pub table_built : LayerState → Resolver → Pass LayerState
table_built l r =
    passes (record l { descriptor_generation = add64 l.descriptor_generation 1 })
      (record r {
        counters = record r.counters {
          descriptor_tables_built = add64 r.counters.descriptor_tables_built 1;
        };
      })

unfoldable pub upload : LayerState → Resolver → Pass LayerState
unfolding cuda_check table_built
upload l r =
    if length l.pages == 0
    then table_built l r
    else elim (cuda_check l r) [ stops e l' r' ↦ stops e l' r' | passes l' r' ↦ table_built l' r' ]

unfoldable pub refresh_descriptor_table : LayerState → Resolver → Pass LayerState
unfolding are_available enlarge upload
refresh_descriptor_table l r =
    if not (are_available l.pages r.pages)
    then stops unavailable_page l r
    else elim (enlarge l r) [ stops e l' r' ↦ stops e l' r' | passes l' r' ↦ upload l' r' ]
