-- ===== src/Security/Types.antt =====
-- The structs of src/security_release.cpp and include/chromofold/security_release.h. A text is the
-- list of its bytes before the zero, and none where the pointer is null.
use chromo_fold.Prelude.{ℕ, Option, List}

pub record Config : Type 0 where
  pub protocol_version : ℕ
  pub current_key_generation : ℕ
  pub next_key_generation : ℕ
  pub rotation_grace_millis : ℕ
  pub replay_window_millis : ℕ
  pub require_mtls : ℕ
  pub require_manifest_signatures : ℕ
  pub require_tenant_binding : ℕ
  pub max_replay_entries : ℕ

pub record PeerIdentity : Type 0 where
  pub worker_id : ℕ
  pub tenant_namespace : ℕ
  pub role : ℕ
  pub key_generation : ℕ
  pub not_before_millis : ℕ
  pub not_after_millis : ℕ
  pub certificate_fingerprint : List ℕ

pub record AuthorizationRequest : Type 0 where
  pub peer : PeerIdentity
  pub operation : ℕ
  pub target_tenant_namespace : ℕ
  pub model_namespace : ℕ

pub record SignedManifest : Type 0 where
  pub tenant_namespace : ℕ
  pub model_namespace : ℕ
  pub page_identity_hash : ℕ
  pub payload_bytes : ℕ
  pub payload_checksum : ℕ
  pub lease_generation : ℕ
  pub owner_worker_id : ℕ
  pub protocol_version : ℕ
  pub codec_version : ℕ
  pub key_generation : ℕ
  pub signature : List ℕ

pub record ReplayToken : Type 0 where
  pub peer_worker_id : ℕ
  pub nonce : ℕ
  pub timestamp_millis : ℕ
  pub operation_hash : ℕ

pub record ReleaseComponent : Type 0 where
  pub name : Option (List ℕ)
  pub version : Option (List ℕ)
  pub sha256 : Option (List ℕ)
  pub license : Option (List ℕ)

-- `components` with its count is a list, none where the pointer is null.
pub record ReleaseManifest : Type 0 where
  pub release_version : Option (List ℕ)
  pub git_commit : Option (List ℕ)
  pub platform : Option (List ℕ)
  pub cuda_version : Option (List ℕ)
  pub protocol_version : ℕ
  pub codec_version : ℕ
  pub checkpoint_version : ℕ
  pub components : Option (List ReleaseComponent)
  pub signature : List ℕ

pub record Counters : Type 0 where
  pub peers_authenticated : ℕ
  pub authentication_rejections : ℕ
  pub authorization_grants : ℕ
  pub authorization_rejections : ℕ
  pub manifests_verified : ℕ
  pub manifest_tamper_rejections : ℕ
  pub replay_rejections : ℕ
  pub tenant_substitution_rejections : ℕ
  pub key_rotations : ℕ
  pub stale_key_rejections : ℕ
  pub audit_records : ℕ
  pub audit_chain_failures : ℕ
  pub release_verifications : ℕ
  pub release_verification_failures : ℕ

-- The `int` that a call returns, 0 or -1.
pub data Status : Type 0 where
  success failure : Status

-- `error` is the bytes of a text that no call writes.
pub record Runtime : Type 0 where
  pub config : Config
  pub replay_cache : List ℕ
  pub counters : Counters
  pub rotation_started_millis : ℕ
  pub audit_chain : ℕ
  pub error : List ℕ
