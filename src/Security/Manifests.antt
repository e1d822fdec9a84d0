-- ===== src/Security/Manifests.antt =====
-- Signed manifests and releases in src/security_release.cpp.
use chromo_fold.Prelude.{
  ℕ, Bool, true, false, not, ◌&&◌, ◌||◌, Option, none, some, List, [], ◌∷◌, ◌==◌, if◌then◌else◌,
  is_some, length,
}
use chromo_fold.Prelude.Words.{add64}
use chromo_fold.Security.Types.{
  SignedManifest, ReleaseComponent, ReleaseManifest, Status, success, failure, Runtime,
}
use chromo_fold.Security.Digest.{digest32, manifest_words}

unfoldable pub signed : Runtime → SignedManifest → SignedManifest
signed r m = record m {
  key_generation = r.config.current_key_generation;
  signature = digest32 (manifest_words m) r.config.current_key_generation;
}

-- The manifest as the call leaves it, none where it returns -1. The runtime does not change.
unfoldable pub sign_manifest : Runtime → SignedManifest → Option SignedManifest
unfolding signed
sign_manifest r m =
    if m.tenant_namespace == 0
      || m.payload_bytes == 0
      || not (m.protocol_version == r.config.protocol_version)
    then none
    else some (signed r m)

-- std::memcmp(...) == 0
unfoldable pub same_bytes : List ℕ → List ℕ → Bool
same_bytes [] [] = true
same_bytes [] (c ∷ cs) = false
same_bytes (b ∷ bs) [] = false
same_bytes (b ∷ bs) (c ∷ cs) = b == c && same_bytes bs cs

tenant_substituted : Runtime → Runtime
tenant_substituted r = record r {
  counters = record r.counters {
    tenant_substitution_rejections = add64 r.counters.tenant_substitution_rejections 1;
  };
}

tampered : Runtime → Runtime
tampered r = record r {
  counters = record r.counters {
    manifest_tamper_rejections = add64 r.counters.manifest_tamper_rejections 1;
  };
}

unfoldable pub verified : Runtime → Runtime
verified r = record r {
  counters = record r.counters { manifests_verified = add64 r.counters.manifests_verified 1 };
}

-- A version or a key that the runtime does not know.
unknown_key : Runtime → SignedManifest → Bool
unknown_key r m =
    not (m.protocol_version == r.config.protocol_version)
    || not (m.key_generation == r.config.current_key_generation)
      && not (m.key_generation == r.config.next_key_generation)

unfoldable pub is_genuine : SignedManifest → Bool
is_genuine m = same_bytes (digest32 (manifest_words m) m.key_generation) m.signature

unfoldable pub verify_manifest : Runtime → SignedManifest → ℕ → Runtime × Status
unfolding tenant_substituted tampered unknown_key
verify_manifest r m tenant =
    if tenant == 0
    then (r, failure)
    else if not (r.config.require_tenant_binding == 0) && not (m.tenant_namespace == tenant)
    then (tenant_substituted r, failure)
    else if unknown_key r m
    then (tampered r, failure)
    else if not (is_genuine m)
    then (tampered r, failure)
    else (verified r, success)

release_failed : Runtime → Runtime
release_failed r = record r {
  counters = record r.counters {
    release_verification_failures = add64 r.counters.release_verification_failures 1;
  };
}

release_verified : Runtime → Runtime
release_verified r = record r {
  counters = record r.counters { release_verifications = add64 r.counters.release_verifications 1 };
}

unfoldable pub has_sha256 : Option (List ℕ) → Bool
has_sha256 none = false
has_sha256 (some text) = length text == 64

unfoldable pub is_complete : ReleaseComponent → Bool
unfolding has_sha256
is_complete c = is_some c.name && is_some c.version && has_sha256 c.sha256 && is_some c.license

unfoldable pub check_components : List ReleaseComponent → Bool
unfolding is_complete
check_components [] = true
check_components (c ∷ cs) = is_complete c && check_components cs

unfoldable pub verify_release : Runtime → ReleaseManifest → Runtime × Status
unfolding release_failed release_verified check_components
verify_release r m =
    if not (is_some m.release_version)
      || not (is_some m.git_commit)
      || not (is_some m.platform)
      || not (m.protocol_version == r.config.protocol_version)
    then (release_failed r, failure)
    else elim m.components [
      | none ↦ (release_failed r, failure)
      | some components ↦
          if length components == 0 || not (check_components components)
          then (release_failed r, failure)
          else (release_verified r, success)
    ]
