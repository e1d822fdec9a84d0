-- ===== src/Security.antt =====
-- Peers, grants, signed manifests, replay tokens, key rotation, the audit chain and releases:
-- src/security_release.cpp. Each cf_security_ function is a function on the runtime, atomic as under
-- its mutex; null arguments are left out, and the time is an argument as in the source.
pub mod Types
mod Roles
mod Operations
pub mod Digest
pub mod Access
pub mod Manifests
pub mod Replay
pub mod Hashing
pub mod Signatures
pub mod Rotation
pub mod Peers
pub mod Tokens
pub mod Chain
mod Examples
use chromo_fold.Prelude.{ℕ, List, [], ◌∷◌}
use Types.{
  AuthorizationRequest, Counters, PeerIdentity, ReleaseManifest, ReplayToken, Runtime,
  SignedManifest,
}
use Access.{authenticate, authorize, rotate_keys}
use Manifests.{verify_manifest, verify_release}
use Replay.{check_replay, append_audit}

abbrev pub get_counters : Runtime → Counters
get_counters r = r.counters

abbrev pub last_error : Runtime → List ℕ
last_error r = r.error

-- The calls that change the runtime; cf_security_sign_manifest changes only the manifest.
pub data Call : Type 0 where
  authenticates : PeerIdentity → ℕ → Call
  authorizes : AuthorizationRequest → Call
  verifies : SignedManifest → ℕ → Call
  checks : ReplayToken → ℕ → Call
  rotates : ℕ → ℕ → Call
  audits : ℕ → Call
  releases : ReleaseManifest → Call

abbrev pub step : Runtime → Call → Runtime
step r (authenticates p now) = (authenticate r p now).0
step r (authorizes q) = (authorize r q).0
step r (verifies m tenant) = (verify_manifest r m tenant).0
step r (checks t now) = (check_replay r t now).0
step r (rotates next now) = (rotate_keys r next now).0
step r (audits event) = (append_audit r event).0
step r (releases m) = (verify_release r m).0

abbrev pub run : Runtime → List Call → Runtime
run r [] = r
run r (c ∷ cs) = run (step r c) cs
