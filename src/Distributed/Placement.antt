-- ===== src/Distributed/Placement.antt =====
-- Where src/distributed_runtime.cpp places sequences, through all calls.
use chromo_fold.Prelude.{
  ℕ, zero, suc, ◌≡◌, refl, sym, ap, inl, inr, true, none, some, List, [], ◌∷◌, arith, ◌==◌,
  if◌then◌else◌, is_some, Bool-cases, Option-cases, get_elem?,
}
use chromo_fold.Prelude.Words.{add32}
use chromo_fold.Prelude.Map.{find, emplace, find-assign, find-emplace}
use chromo_fold.Distributed.Types.{
  DeviceDescriptor, Config, SequencePlacement, BatchItem, Runtime, mode_tensor,
}
use chromo_fold.Distributed.Place.{
  failed, create, device_index, new_placement, placed, place_sequence, find_device, migrated,
  migrate_sequence,
}
use chromo_fold.Distributed.Batch.{
  count_link, link_rest, link_all, enable_peer_links, routing_failed, transfer, transfer_between,
  check_item, check_items, dispatched, execute_batch, shutdown,
}
use chromo_fold.Distributed.{Call, places, migrates, links, executes, shuts, step, run}

-- The counters and the error apart, nothing changes.
abbrev pub SameFleet : Runtime → Runtime → Type 0
SameFleet r s =
    (s.config ≡ r.config)
    × (s.devices ≡ r.devices)
    × (s.placements ≡ r.placements)
    × (s.shutting_down ≡ r.shutting_down)

pub link_rest_same :
    (d : DeviceDescriptor) (es : List DeviceDescriptor) (r : Runtime)
    → SameFleet r (link_rest d es r).0
unfolding link_rest
link_rest_same d [] r = (refl, refl, refl, refl)
link_rest_same d (e ∷ es) r =
    ground (arith, link_rest_same d es (record r { counters = count_link d e r.counters }))

link_all_same : (ds : List DeviceDescriptor) (r : Runtime) → SameFleet r (link_all ds r).0
unfolding link_all
link_all_same [] r = (refl, refl, refl, refl)
link_all_same (d ∷ ds) r =
    ground (arith, link_rest_same d ds r, link_all_same ds (link_rest d ds r).0)

pub enable_peer_links_same : (r : Runtime) → SameFleet r (enable_peer_links r).0
unfolding enable_peer_links failed
enable_peer_links_same r = ground (arith, link_all_same r.devices r)

pub check_item_same : (r : Runtime) (i : BatchItem) → SameFleet r (check_item r i).0
unfolding check_item routing_failed transfer_between transfer failed
check_item_same r i = ground arith

check_items_same : (is : List BatchItem) (r : Runtime) → SameFleet r (check_items is r).0
unfolding check_items
check_items_same [] r = (refl, refl, refl, refl)
check_items_same (i ∷ is) r =
    ground (arith, check_item_same r i, check_items_same is (check_item r i).0)

pub execute_batch_same :
    (r : Runtime) (items : List BatchItem) → SameFleet r (execute_batch r items).0
unfolding execute_batch dispatched failed
execute_batch_same r items = ground (arith, check_items_same items r)

-- Each placement stands under its sequence, on a registered device, with the shards of the mode.
pub record IsPlaced (r : Runtime) : Type 0 where
  pub named : (id : ℕ) (p : SequencePlacement) → find id r.placements ≡ some p → p.sequence_id ≡ id
  pub on_device :
      (id : ℕ) (p : SequencePlacement)
      → find id r.placements ≡ some p
      → is_some (find_device p.primary_device r.devices) ≡ true
  pub sharded :
      (id : ℕ) (p : SequencePlacement)
      → find id r.placements ≡ some p
      → p.shard_count ≡ (if r.config.mode == mode_tensor then r.config.tensor_parallel_size else 1)

same-IsPlaced : {r s : Runtime} → SameFleet r s → IsPlaced r → IsPlaced s
same-IsPlaced {r} {s} e v = record {
  named = λ id p. rw e.2 (v.named id p);
  on_device = λ id p. rw (e.1, e.2) (v.on_device id p);
  sharded = λ id p. rw (e.0, e.2) (v.sharded id p);
}

-- A device at an index is found by its ordinal, or an earlier one of the same ordinal is.
find_device-get_elem? :
    (ds : List DeviceDescriptor) (i : ℕ) (d : DeviceDescriptor)
    → get_elem? ds i ≡ some d
    → is_some (find_device d.ordinal ds) ≡ true
unfolding find_device
find_device-get_elem? [] i d e = cc
find_device-get_elem? (x ∷ ds) zero d e = ground arith
find_device-get_elem? (x ∷ ds) (suc i) d e = ground (arith, find_device-get_elem? ds i d)

placed-IsPlaced :
    (r : Runtime) (id : ℕ) (d : DeviceDescriptor)
    → IsPlaced r
    → find id r.placements ≡ none
    → get_elem? r.devices (device_index r id) ≡ some d
    → IsPlaced (placed r id (new_placement r id d))
unfolding placed new_placement
placed-IsPlaced r id d v new at = record {
  named = λ j p e.
      ground (
        arith,
        find-emplace id j (new_placement r id d) r.placements (ap is_some new),
        v.named j p,
      );
  on_device = λ j p e. ground (
    arith,
    find-emplace id j (new_placement r id d) r.placements (ap is_some new),
    v.on_device j p,
    find_device-get_elem? r.devices (device_index r id) d at,
  );
  sharded = λ j p e. ground (
    arith,
    find-emplace id j (new_placement r id d) r.placements (ap is_some new),
    v.sharded j p,
  );
}

migrated-IsPlaced :
    (r : Runtime) (id : ℕ) (p : SequencePlacement) (destination : ℕ)
    → IsPlaced r
    → find id r.placements ≡ some p
    → is_some (find_device destination r.devices) ≡ true
    → IsPlaced (migrated r id p destination)
unfolding migrated
migrated-IsPlaced r id p destination v here known = record {
  named = λ j q e.
      ground (arith, find-assign id j (moved) r.placements, v.named j q, v.named id p here);
  on_device = λ j q e. ground (arith, find-assign id j moved r.placements, v.on_device j q);
  sharded = λ j q e.
      ground (arith, find-assign id j moved r.placements, v.sharded j q, v.sharded id p here);
}
  where
    moved : SequencePlacement
    moved = record p { primary_device = destination; generation = add32 p.generation 1 }

place_sequence-IsPlaced : (r : Runtime) (id : ℕ) → IsPlaced r → IsPlaced (place_sequence r id).0
unfolding place_sequence failed
place_sequence-IsPlaced r id v = elim (Bool-cases r.shutting_down) [
  | inl shut ↦ rw shut (same-IsPlaced (refl, refl, refl, sym shut) v)
  | inr open_ ↦ elim (Option-cases (find id r.placements)) [
    | inr (p, e) ↦ rw (open_, e) v
    | inl new ↦ elim (Option-cases (get_elem? r.devices (device_index r id))) [
      | inl n ↦ rw (open_, new, n) v
      | inr (d, at) ↦ rw (open_, new, at) (placed-IsPlaced r id d v new at)
    ]
  ]
]

migrate_sequence-IsPlaced :
    (r : Runtime) (id destination : ℕ) → IsPlaced r → IsPlaced (migrate_sequence r id destination).0
unfolding migrate_sequence failed
migrate_sequence-IsPlaced r id destination v = elim (Option-cases (find id r.placements)) [
  | inl n ↦ rw (n, migrate_sequence) (same-IsPlaced (refl, refl, refl, refl) v)
  | inr (p, here) ↦ elim (Option-cases (find_device destination r.devices)) [
    | inl n ↦ rw (here, n, migrate_sequence) (same-IsPlaced (refl, refl, refl, refl) v)
    | inr (d, e) ↦
        rw (here, e, migrate_sequence) (migrated-IsPlaced r id p destination v here (ap is_some e))
  ]
]

IsPlaced-empty : (r : Runtime) → r.placements ≡ [] → IsPlaced r
unfolding find
IsPlaced-empty r m = record {
  named = λ id p. rw m (λ e. cc);
  on_device = λ id p. rw m (λ e. cc);
  sharded = λ id p. rw m (λ e. cc);
}

step-IsPlaced : (r : Runtime) (c : Call) → IsPlaced r → IsPlaced (step r c)
unfolding step shutdown
step-IsPlaced r (places id) v = place_sequence-IsPlaced r id v
step-IsPlaced r (migrates id destination) v = migrate_sequence-IsPlaced r id destination v
step-IsPlaced r links v = same-IsPlaced (enable_peer_links_same r) v
step-IsPlaced r (executes items) v = same-IsPlaced (execute_batch_same r items) v
step-IsPlaced r shuts v = IsPlaced-empty (shutdown r) refl

run-IsPlaced : (r : Runtime) (cs : List Call) → IsPlaced r → IsPlaced (run r cs)
unfolding run
run-IsPlaced r [] v = v
run-IsPlaced r (c ∷ cs) v = run-IsPlaced (step r c) cs (step-IsPlaced r c v)

create_empty : (k : Config) (r : Runtime) → create k ≡ some r → r.placements ≡ []
unfolding create
create_empty k r e = ground arith

-- After any calls on a created runtime, each placement stands under its sequence number, on a
-- registered device, with the shard count of the mode.
pub run-create-IsPlaced :
    (k : Config) (r : Runtime) (cs : List Call) → create k ≡ some r → IsPlaced (run r cs)
run-create-IsPlaced k r cs e = run-IsPlaced r cs (IsPlaced-empty r (create_empty k r e))

-- A sequence that was placed is in the table, and placing it again gives the same placement and
-- changes nothing.
place_sequence_again :
    (r : Runtime) (id : ℕ) (p : SequencePlacement)
    → (place_sequence r id).1 ≡ some p
    → let r' = (place_sequence r id).0 in
      (find id r'.placements ≡ some p) × (place_sequence r' id ≡ (r', some p))
unfolding place_sequence placed find emplace
place_sequence_again r id p e = ground (arith, failed)
