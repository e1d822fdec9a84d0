-- ===== src/Distributed/Batch.antt =====
-- Peer links, batches and shutdown in src/distributed_runtime.cpp.
use chromo_fold.Prelude.{
  Bool, true, false, not, ◌&&◌, ◌||◌, Option, none, some, List, [], ◌∷◌, leb, ◌==◌, if◌then◌else◌,
  length,
}
use chromo_fold.Prelude.Words.{add64}
use chromo_fold.Prelude.Map.{contains}
use chromo_fold.Distributed.Types.{
  DeviceDescriptor, BatchItem, Counters, Error, Status, success, failure, Runtime, is_shutting_down,
  link_unavailable, invalid_item, unplaced_item, unknown_device, no_transport, mode_layer,
  mode_tensor,
}
use chromo_fold.Distributed.Place.{failed, find_device}

pub count_link : DeviceDescriptor → DeviceDescriptor → Counters → Counters
count_link d e k =
    if d.peer_group == e.peer_group
    then record k { peer_links_enabled = add64 k.peer_links_enabled 1 }
    else record k { peer_links_rejected = add64 k.peer_links_rejected 1 }

unfoldable pub forbids : Runtime → DeviceDescriptor → DeviceDescriptor → Bool
forbids r d e =
    not (d.peer_group == e.peer_group)
    && not (r.config.strict_peer_access == 0)
    && r.config.allow_host_staging == 0

-- The inner loop, over the devices behind `d`. The Boolean says that it went to its end.
unfoldable pub link_rest : DeviceDescriptor → List DeviceDescriptor → Runtime → Runtime × Bool
unfolding count_link forbids
link_rest d [] r = (r, true)
link_rest d (e ∷ es) r =
    let r' = record r { counters = count_link d e r.counters } in
    elim (forbids r d e) [ true ↦ (r', false) | false ↦ link_rest d es r' ]

unfoldable pub link_all : List DeviceDescriptor → Runtime → Runtime × Bool
unfolding link_rest
link_all [] r = (r, true)
link_all (d ∷ ds) r =
    let (r', whole) = link_rest d ds r in elim whole [ true ↦ link_all ds r' | false ↦ (r', false) ]

unfoldable pub enable_peer_links : Runtime → Runtime × Status
unfolding link_all failed
enable_peer_links r =
    let (r', whole) = link_all r.devices r in
    if whole then (record r' { error = none }, success) else (failed link_unavailable r', failure)

unfoldable pub routing_failed : Error → Runtime → Runtime
unfolding failed
routing_failed e r = failed e (record r {
  counters = record r.counters { routing_failures = add64 r.counters.routing_failures 1 };
})

unfoldable pub malformed : Runtime → BatchItem → Bool
malformed r i =
    not i.has_query || not i.has_output || i.token_count == 0 || leb r.config.layer_count i.layer

-- The transfer between two known devices. The Boolean says that the loop goes on.
unfoldable pub transfer : Runtime → DeviceDescriptor → DeviceDescriptor → Runtime × Bool
unfolding failed
transfer r source target =
    if source.peer_group == target.peer_group
    then (
      record r { counters = record r.counters { peer_copies = add64 r.counters.peer_copies 1 } },
      true,
    )
    else if not (r.config.allow_host_staging == 0)
    then (
      record r {
        counters = record r.counters { host_staged_copies = add64 r.counters.host_staged_copies 1 };
      },
      true,
    )
    else (failed no_transport r, false)

unfoldable pub transfer_between :
    Runtime → Option DeviceDescriptor → Option DeviceDescriptor → Runtime × Bool
unfolding transfer failed
transfer_between r (some source) (some target) = transfer r source target
transfer_between r (some source) none = (failed unknown_device r, false)
transfer_between r none target = (failed unknown_device r, false)

unfoldable pub check_item : Runtime → BatchItem → Runtime × Bool
unfolding malformed routing_failed transfer_between
check_item r i =
    if malformed r i
    then (routing_failed invalid_item r, false)
    else if not (contains i.sequence_id r.placements)
    then (routing_failed unplaced_item r, false)
    else if i.source_device == i.execution_device
    then (r, true)
    else transfer_between r (find_device i.source_device r.devices)
        (find_device i.execution_device r.devices)

unfoldable pub check_items : List BatchItem → Runtime → Runtime × Bool
unfolding check_item
check_items [] r = (r, true)
check_items (i ∷ is) r =
    let (r', whole) = check_item r i in
    elim whole [ true ↦ check_items is r' | false ↦ (r', false) ]

unfoldable pub dispatched : Runtime → Runtime
dispatched r = record r {
  error = none;
  counters = record r.counters {
    batches_dispatched = add64 r.counters.batches_dispatched 1;
    tensor_parallel_batches =
        if r.config.mode == mode_tensor
        then add64 r.counters.tensor_parallel_batches 1
        else r.counters.tensor_parallel_batches;
    layer_parallel_batches =
        if r.config.mode == mode_layer
        then add64 r.counters.layer_parallel_batches 1
        else r.counters.layer_parallel_batches;
  };
}

unfoldable pub execute_batch : Runtime → List BatchItem → Runtime × Status
unfolding check_items dispatched failed
execute_batch r items =
    let (r', whole) = check_items items r in
    if length items == 0
    then (r, failure)
    else if r.shutting_down
    then (failed is_shutting_down r, failure)
    else if whole
    then (dispatched r', success)
    else (r', failure)

unfoldable pub shutdown : Runtime → Runtime
shutdown r = record r {
  shutting_down = true;
  placements = [];
  counters = record r.counters { page_refs_at_shutdown = 0; snapshot_refs_at_shutdown = 0 };
  error = none;
}
