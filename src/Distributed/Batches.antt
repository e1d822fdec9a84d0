-- ===== src/Distributed/Batches.antt =====
-- Which batches and peer links src/distributed_runtime.cpp accepts, and what a shutdown leaves.
use chromo_fold.Prelude.{
  ℕ, ◌<◌, ◌≡◌, refl, ap, inl, inr, ◌⊎◌, ◌↔◌, ◌≢◌, true, false, none, some, List, [], ◌∷◌, arith,
  Bool-cases, Option-cases, length, All,
}
use chromo_fold.Prelude.Map.{find, contains}
use chromo_fold.Distributed.Types.{DeviceDescriptor, BatchItem, Runtime, success, failure}
use chromo_fold.Distributed.Place.{failed, place_sequence, find_device, migrate_sequence}
use chromo_fold.Distributed.Batch.{
  count_link, forbids, link_rest, link_all, enable_peer_links, malformed, transfer,
  transfer_between, check_item, check_items, execute_batch, shutdown,
}
use chromo_fold.Distributed.Placement.{
  SameFleet, link_rest_same, enable_peer_links_same, execute_batch_same, check_item_same,
}
use chromo_fold.Distributed.{Call, places, migrates, links, executes, shuts, step, run}

-- The two devices are known, and may pass data to one another.
abbrev CanTransfer : Runtime → ℕ → ℕ → Type 0
CanTransfer r a b =
    (s : DeviceDescriptor) × (t : DeviceDescriptor) × (find_device a r.devices ≡ some s)
    × (find_device b r.devices ≡ some t)
    × ((s.peer_group ≡ t.peer_group) ⊎ (r.config.allow_host_staging ≢ 0))

abbrev pub IsAllowed : Runtime → BatchItem → Type 0
IsAllowed r i =
    (i.has_query ≡ true)
    × (i.has_output ≡ true)
    × (i.token_count ≢ 0)
    × (i.layer < r.config.layer_count)
    × (contains i.sequence_id r.placements ≡ true)
    × ((i.source_device ≡ i.execution_device) ⊎ CanTransfer r i.source_device i.execution_device)

transfer_between_iff :
    (r : Runtime) (a b : ℕ)
    → ((transfer_between r (find_device a r.devices) (find_device b r.devices)).1 ≡ true)
      ↔ CanTransfer r a b
unfolding transfer_between transfer
transfer_between_iff r a b = elim (Option-cases (find_device a r.devices)) [
  | inl n ↦ rw (n, transfer_between) ((λ e. cc), λ (s, t, e, f, g). cc)
  | inr (s, e) ↦ elim (Option-cases (find_device b r.devices)) [
    | inl n ↦ rw (e, n, transfer_between) ((λ e. cc), λ (s, t, e, f, g). cc)
    | inr (t, f) ↦ (λ ok. (s, t, e, f, ground arith), λ (s', t', e', f', g). ground arith)
  ]
]

check_item_iff : (r : Runtime) (i : BatchItem) → ((check_item r i).1 ≡ true) ↔ IsAllowed r i
unfolding check_item malformed
check_item_iff r i =
    let between = transfer_between_iff r i.source_device i.execution_device in
    (λ ok. ground (arith, between.0), λ allowed. ground (arith, between.1))

IsAllowed-same :
    (r s : Runtime) (is : List BatchItem)
    → SameFleet r s
    → All (IsAllowed s) is
    → All (IsAllowed r) is
IsAllowed-same r s is e h = rw (← e.0, ← e.1, ← e.2) h

IsAllowed-back :
    (r s : Runtime) (is : List BatchItem)
    → SameFleet r s
    → All (IsAllowed r) is
    → All (IsAllowed s) is
IsAllowed-back r s is e h = rw (e.0, e.1, e.2) h

check_items_iff :
    (is : List BatchItem) (r : Runtime) → ((check_items is r).1 ≡ true) ↔ All (IsAllowed r) is
unfolding check_items
check_items_iff [] r = (λ e. tt, λ c. refl)
check_items_iff (i ∷ is) r =
    let one = check_item_iff r i in
    let more = check_items_iff is (check_item r i).0 in
    let same = check_item_same r i in
    elim (Bool-cases (check_item r i).1) [
      | inl good ↦
          rw (good, check_items)
            (
              (λ e. (one.0 good, IsAllowed-same r (check_item r i).0 is same (more.0 e))),
              λ h. more.1 (IsAllowed-back r (check_item r i).0 is same h.1),
            )
      | inr bad ↦ rw (bad, check_items) ((λ e. cc), λ h. cc (one.1 h.0))
    ]

length-ne_zero {ℓ} : {A : Type ℓ} (l : List A) → l ≢ [] → length l ≢ 0
length-ne_zero [] h = absurd (h refl)
length-ne_zero (x ∷ l) h = omega arith

-- A batch is dispatched exactly when it has an item, the runtime is not shut down, and each item
-- has its pointers, tokens, a layer of the model, a placed sequence, and, between two devices,
-- known ones in one peer group or staging through the host.
pub execute_batch_iff :
    (r : Runtime) (items : List BatchItem)
    → ((execute_batch r items).1 ≡ success)
      ↔ ((items ≢ []) × (r.shutting_down ≡ false) × All (IsAllowed r) items)
unfolding execute_batch
execute_batch_iff r items =
    let every = check_items_iff items r in
    (
      λ ok. (λ none_. ground (arith, ap length none_), ground arith, every.0 (ground arith)),
      λ h. ground (arith, every.1 h.2, length-ne_zero items h.0),
    )

-- Each device has the peer group of every one behind it.
abbrev AreLinked : List DeviceDescriptor → Type 0
AreLinked [] = Unit {0}
AreLinked (d ∷ ds) = All (λ e. d.peer_group ≡ e.peer_group) ds × AreLinked ds

-- The loop goes on where the peer groups agree, or the configuration lets it.
abbrev Permits : Runtime → Type 0 → Type 0
Permits r P = (r.config.strict_peer_access ≡ 0) ⊎ ((r.config.allow_host_staging ≢ 0) ⊎ P)

link_rest_iff :
    (d : DeviceDescriptor) (es : List DeviceDescriptor) (r : Runtime)
    → ((link_rest d es r).1 ≡ true) ↔ Permits r (All (λ e. d.peer_group ≡ e.peer_group) es)
unfolding link_rest forbids
link_rest_iff d [] r = (λ e. inr (inr tt), λ h. refl)
link_rest_iff d (e ∷ es) r =
    let more = link_rest_iff d es (record r { counters = count_link d e r.counters }) in
    (λ ok. ground (arith, more.0), λ h. ground (arith, more.1))

link_all_iff :
    (ds : List DeviceDescriptor) (r : Runtime)
    → ((link_all ds r).1 ≡ true) ↔ Permits r (AreLinked ds)
unfolding link_all
link_all_iff [] r = (λ e. inr (inr tt), λ h. refl)
link_all_iff (d ∷ ds) r =
    let one = link_rest_iff d ds r in
    let more = link_all_iff ds (link_rest d ds r).0 in
    let same = link_rest_same d ds r in
    (λ ok. ground (arith, one.0, more.0, same), λ h. ground (arith, one.1, more.1, same))

-- Peer links are enabled with success exactly where peer access is not strict, or staging through
-- the host is allowed, or each device has the peer group of every one behind it.
enable_peer_links_iff :
    (r : Runtime) → ((enable_peer_links r).1 ≡ success) ↔ Permits r (AreLinked r.devices)
unfolding enable_peer_links
enable_peer_links_iff r =
    let all = link_all_iff r.devices r in (λ ok. all.0 (ground arith), λ h. ground (arith, all.1 h))

abbrev IsShut : Runtime → Type 0
IsShut r = (r.shutting_down ≡ true) × (r.placements ≡ [])

step-IsShut : (r : Runtime) (c : Call) → IsShut r → IsShut (step r c)
unfolding step place_sequence migrate_sequence failed shutdown find
step-IsShut r (places id) h = ground arith
step-IsShut r (migrates id destination) h = ground arith
step-IsShut r links h = ground (arith, enable_peer_links_same r)
step-IsShut r (executes items) h = ground (arith, execute_batch_same r items)
step-IsShut r shuts h = (refl, refl)

run-IsShut : (r : Runtime) (cs : List Call) → IsShut r → IsShut (run r cs)
unfolding run
run-IsShut r [] h = h
run-IsShut r (c ∷ cs) h = run-IsShut (step r c) cs (step-IsShut r c h)

-- After a shutdown, whatever the calls, the runtime stays shut and without placements, and no
-- sequence is placed and no batch dispatched.
shutdown_final :
    (r : Runtime) (cs : List Call)
    → let s = run (shutdown r) cs in
      (s.shutting_down ≡ true)
      × (s.placements ≡ [])
      × ((id : ℕ) → (place_sequence s id).1 ≡ none)
      × ((items : List BatchItem) → (execute_batch s items).1 ≡ failure)
unfolding shutdown place_sequence execute_batch
shutdown_final r cs =
    let shut = run-IsShut (shutdown r) cs (refl, refl) in
    (shut.0, shut.1, λ id. ground (arith, shut.0), λ items. ground (arith, shut.0))
