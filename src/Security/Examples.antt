-- ===== src/Security/Examples.antt =====
-- Runs of src/security_release.cpp on one tenant.
use chromo_fold.Prelude.{
  ℕ, ◌≤◌, ◌≡◌, ◌≢◌, ◌⊎◌, ◌↔◌, refl, none, some, replicate, [], ◌∷◌, arith, List, set, ap, get_elem?,
}
use chromo_fold.Prelude.Words.{add64, mul64}
use chromo_fold.Security.{run, checks, rotates}
use chromo_fold.Security.Types.{
  Config, PeerIdentity, AuthorizationRequest, SignedManifest, ReplayToken, ReleaseManifest, Runtime,
  success, failure,
}
use chromo_fold.Security.Access.{no_counts, create, authenticate, authorize, rotate_keys}
use chromo_fold.Security.Manifests.{
  sign_manifest, signed, same_bytes, is_genuine, verified, verify_manifest,
}
use chromo_fold.Security.Replay.{check_replay, out_of_window}
use chromo_fold.Security.Digest.{manifest_words, digest32}
use chromo_fold.Security.Rotation.{rotation_lapses}
use chromo_fold.Security.Signatures.{sign_verify, verify_tamper}
use chromo_fold.Security.Peers.{authenticate_iff, authorize_isolated}
use chromo_fold.Security.Tokens.{run-create-IsWithin, IsWithin, replay_refused, replay_forgotten}
use chromo_fold.Security.Chain.{audit_tamper}

abbrev config : Config
config = record {
  protocol_version = 1;
  current_key_generation = 3;
  next_key_generation = 0;
  rotation_grace_millis = 100;
  replay_window_millis = 50;
  require_mtls = 1;
  require_manifest_signatures = 1;
  require_tenant_binding = 1;
  max_replay_entries = 2;
}

abbrev fresh : Runtime
fresh = record {
  config = config;
  replay_cache = [];
  counters = no_counts;
  rotation_started_millis = 0;
  audit_chain = 0;
  error = [];
}

abbrev peer : ℕ → ℕ → PeerIdentity
peer role key = record {
  worker_id = 5;
  tenant_namespace = 9;
  role = role;
  key_generation = key;
  not_before_millis = 10;
  not_after_millis = 2000;
  certificate_fingerprint = replicate 32 1;
}

abbrev manifest : SignedManifest
manifest = record {
  tenant_namespace = 9;
  model_namespace = 2;
  page_identity_hash = 77;
  payload_bytes = 4096;
  payload_checksum = 5;
  lease_generation = 1;
  owner_worker_id = 5;
  protocol_version = 1;
  codec_version = 1;
  key_generation = 0;
  signature = replicate 32 0;
}

abbrev token : ℕ → ReplayToken
token nonce = record {
  peer_worker_id = 5;
  nonce = nonce;
  timestamp_millis = 1000;
  operation_hash = 3;
}

abbrev drain : AuthorizationRequest
drain = record { peer = peer 5 3; operation = 7; target_tenant_namespace = 4; model_namespace = 2 }

abbrev release : ReleaseManifest
release = record {
  release_version = some (1 ∷ []);
  git_commit = some (2 ∷ []);
  platform = some (3 ∷ []);
  cuda_version = none;
  protocol_version = 1;
  codec_version = 1;
  checkpoint_version = 1;
  components = some (
      (record {
        name = some (4 ∷ []);
        version = some (5 ∷ []);
        sha256 = some (replicate 64 6);
        license = some (7 ∷ []);
      })
      ∷ []);
  signature = replicate 32 0;
}

sign_verify_example :
    verify_manifest (run fresh (rotates 4 20 ∷ [])) (signed fresh manifest) 9
    ≡ (verified (run fresh (rotates 4 20 ∷ [])), success)
unfolding sign_manifest signed
sign_verify_example = sign_verify fresh manifest (signed fresh manifest) (rotates 4 20 ∷ []) refl

abbrev forged : SignedManifest
forged = record (signed fresh manifest) { payload_bytes = 8192 }

changed : manifest_words forged ≢ manifest_words (signed fresh manifest)
unfolding manifest_words signed
changed e = ground (arith, ap (λ (x : List ℕ). get_elem? x 3) e)

verify_tamper_example : (verify_manifest fresh forged 9).1 ≡ failure
unfolding manifest_words verify_manifest signed is_genuine same_bytes digest32 mul64
verify_tamper_example =
    verify_tamper fresh fresh (signed fresh manifest) forged 9 9 3 8192
      (
        omega arith,
        (
          omega arith,
          (
            omega arith,
            (omega arith, (omega arith, (omega arith, (omega arith, (omega arith, tt))))),
          ),
        ),
      )
      (omega arith) refl refl changed refl refl

authenticate_iff_example : ((authenticate fresh (peer 2 3) 50).1 ≡ success) ↔ (
    ((peer 2 3).worker_id ≢ 0)
    × (1 ≤ 2)
    × (2 ≤ 5)
    × (10 ≤ 50)
    × (50 ≤ 2000)
    × (((peer 2 3).key_generation ≡ config.current_key_generation)
        ⊎ ((config.next_key_generation ≢ 0)
            × ((peer 2 3).key_generation ≡ config.next_key_generation)
            × (fresh.rotation_started_millis ≢ 0)
            × (50 ≤ add64 0 100))))
authenticate_iff_example = authenticate_iff fresh (peer 2 3) 50

authorize_isolated_example : (drain.peer.role ≡ 5) × ((drain.operation ≡ 1) ⊎ ((6 ≤ 7) × (7 ≤ 8)))
unfolding authorize
authorize_isolated_example =
    authorize_isolated fresh drain (omega arith) (omega arith) (omega arith) refl

run-create-IsWithin_example :
    IsWithin (run fresh (checks (token 1) 1000 ∷ checks (token 2) 1000 ∷ []))
unfolding create
run-create-IsWithin_example =
    run-create-IsWithin config fresh (checks (token 1) 1000 ∷ checks (token 2) 1000 ∷ []) refl

replay_refused_example :
    (check_replay
      (run (check_replay fresh (token 1) 1000).0 (checks (token 2) 1000 ∷ []))
      (token 1)
      1010).1
    ≡ failure
unfolding check_replay add64
replay_refused_example =
    replay_refused fresh (token 1) (checks (token 2) 1000 ∷ []) 1000 1010 refl (omega arith)

abbrev full : Runtime
full = run fresh (checks (token 1) 1000 ∷ checks (token 2) 1000 ∷ [])

replay_forgotten_example :
    ((check_replay full (token 1) 1010).1 ≡ failure)
    × ((check_replay (check_replay full (token 3) 1000).0 (token 1) 1010).1 ≡ success)
unfolding check_replay out_of_window add64 mul64
replay_forgotten_example =
    replay_forgotten full (token 3) (token 1) 1000 1010 (omega arith) refl refl (omega arith)
      (omega arith) refl

abbrev events : List ℕ
events = 4 ∷ 5 ∷ []

audit_tamper_example : events ≡ set events 1 5
audit_tamper_example =
    audit_tamper fresh events 1 5 (omega arith, (omega arith, tt)) (omega arith, (omega arith, tt))
      (omega arith) (omega arith) (omega arith) (omega arith) refl

rotation_lapses_example :
    (authenticate (run (rotate_keys fresh 4 20).0 (checks (token 1) 1000 ∷ [])) (peer 2 4) 500).1
    ≡ failure
unfolding add64
rotation_lapses_example =
    rotation_lapses fresh (checks (token 1) 1000 ∷ []) (peer 2 4) 4 20 500 (omega arith) refl refl
      (omega arith)
