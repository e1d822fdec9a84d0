-- ===== src/Security/Access.antt =====
-- Creation, peers, grants and key rotation in src/security_release.cpp.
use chromo_fold.Prelude.{
  ℕ, Bool, false, not, ◌&&◌, ◌||◌, Option, none, some, [], ltb, leb, ◌==◌, if◌then◌else◌,
}
use chromo_fold.Prelude.Words.{add64}
use chromo_fold.Security.Types.{
  Config, PeerIdentity, AuthorizationRequest, Counters, Status, success, failure, Runtime,
}
use chromo_fold.Security.Roles.{router, prefill, decode, scheduler, admin}
use chromo_fold.Security.Operations.{
  register_worker, publish_manifest, read_page, transfer_lease, route_request, update_policy,
  drain_worker, inspect_usage,
}

abbrev pub no_counts : Counters
no_counts = record {
  peers_authenticated = 0;
  authentication_rejections = 0;
  authorization_grants = 0;
  authorization_rejections = 0;
  manifests_verified = 0;
  manifest_tamper_rejections = 0;
  replay_rejections = 0;
  tenant_substitution_rejections = 0;
  key_rotations = 0;
  stale_key_rejections = 0;
  audit_records = 0;
  audit_chain_failures = 0;
  release_verifications = 0;
  release_verification_failures = 0;
}

unfoldable pub create : Config → Option Runtime
create k =
    if not (k.protocol_version == 1)
      || k.current_key_generation == 0
      || k.replay_window_millis == 0
      || k.max_replay_entries == 0
    then none
    else some (record {
      config = k;
      replay_cache = [];
      counters = no_counts;
      rotation_started_millis = 0;
      audit_chain = 0;
      error = [];
    })

is_runtime_role : ℕ → Bool
is_runtime_role role = leb router role && leb role admin

role_allows : ℕ → ℕ → Bool
role_allows role operation =
    if operation == register_worker
    then role == router || role == scheduler || role == admin
    else if operation == publish_manifest
    then role == prefill || role == decode
    else if operation == read_page
    then role == prefill || role == decode || role == router
    else if operation == transfer_lease
    then role == prefill || role == decode || role == scheduler
    else if operation == route_request
    then role == router || role == scheduler
    else if operation == update_policy || operation == drain_worker || operation == inspect_usage
    then role == admin
    else false

is_current_key : Runtime → PeerIdentity → Bool
is_current_key r p = p.key_generation == r.config.current_key_generation

is_next_key : Runtime → PeerIdentity → Bool
is_next_key r p =
    not (r.config.next_key_generation == 0) && p.key_generation == r.config.next_key_generation

within_grace : Runtime → ℕ → Bool
within_grace r now =
    not (r.rotation_started_millis == 0)
    && leb now (add64 r.rotation_started_millis r.config.rotation_grace_millis)

peer_rejected : Runtime → PeerIdentity → Runtime
unfolding is_current_key is_next_key
peer_rejected r p = record r {
  counters = record r.counters {
    authentication_rejections = add64 r.counters.authentication_rejections 1;
    stale_key_rejections =
        if not (is_current_key r p) && not (is_next_key r p)
        then add64 r.counters.stale_key_rejections 1
        else r.counters.stale_key_rejections;
  };
}

peer_accepted : Runtime → Runtime
peer_accepted r = record r {
  counters = record r.counters { peers_authenticated = add64 r.counters.peers_authenticated 1 };
}

unfoldable pub authenticate : Runtime → PeerIdentity → ℕ → Runtime × Status
unfolding is_runtime_role is_current_key is_next_key within_grace peer_rejected peer_accepted
authenticate r p now =
    if p.worker_id == 0 || not (is_runtime_role p.role)
    then (r, failure)
    else if not (is_current_key r p) && not (is_next_key r p && within_grace r now)
        || ltb now p.not_before_millis
        || ltb p.not_after_millis now
    then (peer_rejected r p, failure)
    else (peer_accepted r, success)

grant_refused : Runtime → Runtime
grant_refused r = record r {
  counters = record r.counters {
    authorization_rejections = add64 r.counters.authorization_rejections 1;
  };
}

tenant_refused : Runtime → Runtime
tenant_refused r = record r {
  counters = record r.counters {
    authorization_rejections = add64 r.counters.authorization_rejections 1;
    tenant_substitution_rejections = add64 r.counters.tenant_substitution_rejections 1;
  };
}

granted : Runtime → Runtime
granted r = record r {
  counters = record r.counters { authorization_grants = add64 r.counters.authorization_grants 1 };
}

crosses_tenants : Runtime → AuthorizationRequest → Bool
crosses_tenants r q =
    not (r.config.require_tenant_binding == 0)
    && not (q.target_tenant_namespace == 0)
    && not (q.peer.tenant_namespace == q.target_tenant_namespace)
    && not (q.peer.role == admin)

unfoldable pub authorize : Runtime → AuthorizationRequest → Runtime × Status
unfolding role_allows crosses_tenants grant_refused tenant_refused granted
authorize r q =
    if not (role_allows q.peer.role q.operation)
    then (grant_refused r, failure)
    else if crosses_tenants r q
    then (tenant_refused r, failure)
    else (granted r, success)

rotated : Runtime → ℕ → ℕ → Runtime
rotated r next now = record r {
  config = record r.config { next_key_generation = next };
  rotation_started_millis = now;
  counters = record r.counters { key_rotations = add64 r.counters.key_rotations 1 };
}

unfoldable pub rotate_keys : Runtime → ℕ → ℕ → Runtime × Status
unfolding rotated
rotate_keys r next now =
    if leb next r.config.current_key_generation then (r, failure) else (rotated r next now, success)
