-- ===== src/Security/Peers.antt =====
-- Who is let in, and to what, in src/security_release.cpp.
use chromo_fold.Prelude.{
  ℕ, ◌≤◌, true, ◌≡◌, ◌≢◌, ◌↔◌, ◌⊎◌, inl, inr, arith, List, [], ◌∷◌, All, Option, some, none, length,
  Option-cases,
}
use chromo_fold.Prelude.Words.{add64}
use chromo_fold.Security.Types.{
  Runtime, PeerIdentity, AuthorizationRequest, ReleaseManifest, ReleaseComponent, success,
}
use chromo_fold.Security.Access.{authenticate, authorize}
use chromo_fold.Security.Manifests.{verify_release, check_components, is_complete, has_sha256}

-- A peer is let in exactly if it has a number and a role of the runtime, the time is within its
-- certificate, and its key is the current one, or the next one within the grace period of a
-- rotation.
pub authenticate_iff :
    (r : Runtime) (p : PeerIdentity) (now : ℕ)
    → ((authenticate r p now).1 ≡ success) ↔ (
        (p.worker_id ≢ 0)
        × (1 ≤ p.role)
        × (p.role ≤ 5)
        × (p.not_before_millis ≤ now)
        × (now ≤ p.not_after_millis)
        × ((p.key_generation ≡ r.config.current_key_generation)
            ⊎ ((r.config.next_key_generation ≢ 0)
                × (p.key_generation ≡ r.config.next_key_generation)
                × (r.rotation_started_millis ≢ 0)
                × (now ≤ add64 r.rotation_started_millis r.config.rotation_grace_millis))))
unfolding authenticate
authenticate_iff r p now = ground arith

-- Where tenants are bound, a grant on another tenant's namespace is given to an administrator
-- alone, and only to register or drain a worker, update a policy or inspect usage: never for
-- pages, manifests, leases or requests.
pub authorize_isolated :
    (r : Runtime) (q : AuthorizationRequest)
    → r.config.require_tenant_binding ≢ 0
    → q.target_tenant_namespace ≢ 0
    → q.peer.tenant_namespace ≢ q.target_tenant_namespace
    → (authorize r q).1 ≡ success
    → (q.peer.role ≡ 5) × ((q.operation ≡ 1) ⊎ ((6 ≤ q.operation) × (q.operation ≤ 8)))
unfolding authorize
authorize_isolated r q h t d e = ground arith

-- A text of 64 bytes.
abbrev IsSha256 : Option (List ℕ) → Type 0
IsSha256 none = ⊥
IsSha256 (some text) = length text ≡ 64

abbrev IsComplete : ReleaseComponent → Type 0
IsComplete c = (c.name ≢ none) × (c.version ≢ none) × (c.license ≢ none) × IsSha256 c.sha256

abbrev AreComplete : Option (List ReleaseComponent) → Type 0
AreComplete none = ⊥
AreComplete (some cs) = (length cs ≢ 0) × All IsComplete cs

has_sha256_iff : (text : Option (List ℕ)) → (has_sha256 text ≡ true) ↔ IsSha256 text
unfolding has_sha256
has_sha256_iff none = ground arith
has_sha256_iff (some text) = ground arith

is_complete_iff : (c : ReleaseComponent) → (is_complete c ≡ true) ↔ IsComplete c
unfolding is_complete
is_complete_iff c = ground (arith, has_sha256_iff c.sha256)

check_components_iff :
    (cs : List ReleaseComponent) → (check_components cs ≡ true) ↔ All IsComplete cs
unfolding check_components
check_components_iff [] = ground arith
check_components_iff (c ∷ cs) = ground (arith, is_complete_iff c, check_components_iff cs)

-- A release is accepted exactly if it has its texts and the protocol version of the runtime, and
-- at least one component, each with its texts and a hash of 64 bytes.
verify_release_iff :
    (r : Runtime) (m : ReleaseManifest)
    → ((verify_release r m).1 ≡ success) ↔ (
        (m.release_version ≢ none)
        × (m.git_commit ≢ none)
        × (m.platform ≢ none)
        × (m.protocol_version ≡ r.config.protocol_version)
        × AreComplete m.components)
unfolding verify_release
verify_release_iff r m = elim (Option-cases m.components) [
  | inl e ↦ ground (arith, e)
  | inr (cs, e) ↦ simp e (ground (arith, check_components_iff cs))
]
