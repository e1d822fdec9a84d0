-- ===== src/Security/Signatures.antt =====
-- Signed manifests in src/security_release.cpp: what a signature is good for, and what it tells.
use chromo_fold.Prelude.{
  ℕ, ◌<◌, true, List, [], ◌∷◌, ◌≡◌, ◌≢◌, refl, ap, sym, ◌∙◌, arith, All, set, some, Option-cases,
  inl, inr, ◌⊎◌, length,
}
use chromo_fold.Security.{
  Call, step, run, authenticates, authorizes, verifies, checks, rotates, audits, releases,
}
use chromo_fold.Security.Access.{authenticate, authorize, rotate_keys}
use chromo_fold.Security.Replay.{check_replay, append_audit}
use chromo_fold.Security.Types.{Runtime, SignedManifest, Status, success, failure}
use chromo_fold.Security.Digest.{digest32, manifest_words}
use chromo_fold.Security.Manifests.{
  sign_manifest, signed, same_bytes, verified, is_genuine, verify_manifest, verify_release,
}
use chromo_fold.Security.Hashing.{
  IsWord, digest_state-IsWord, mix64-IsWord, digest_state-set, digest_word_cancel,
}

same_bytes_self : (bs : List ℕ) → same_bytes bs bs ≡ true
unfolding same_bytes
same_bytes_self [] = refl
same_bytes_self (b ∷ bs) = ground (arith, same_bytes_self bs)

same_bytes_eq : (bs cs : List ℕ) → same_bytes bs cs ≡ true → bs ≡ cs
unfolding same_bytes
same_bytes_eq [] [] e = refl
same_bytes_eq [] (c ∷ cs) e = ground arith
same_bytes_eq (b ∷ bs) [] e = ground arith
same_bytes_eq (b ∷ bs) (c ∷ cs) e = ground (arith, same_bytes_eq bs cs)

genuine_signature :
    (m : SignedManifest)
    → is_genuine m ≡ true
    → digest32 (manifest_words m) m.key_generation ≡ m.signature
unfolding is_genuine
genuine_signature m e = same_bytes_eq _ _ e

signed_genuine : (r : Runtime) (m : SignedManifest) → is_genuine (signed r m) ≡ true
unfolding is_genuine signed manifest_words
signed_genuine r m = same_bytes_self _

digest32-set :
    (words : List ℕ) (k v g : ℕ)
    → All IsWord words
    → IsWord v
    → length words < 256
    → digest32 words g ≡ digest32 (set words k v) g
    → words ≡ set words k v
unfolding digest32
digest32-set words k v g hs hv hl e =
    digest_state-set words k v 0 _ hs hv (omega arith) (mix64-IsWord _) (
      digest_word_cancel _ _ _ _ (digest_state-IsWord words 0 _ (mix64-IsWord _))
        (digest_state-IsWord (set words k v) 0 _ (mix64-IsWord _)) e)

-- No call changes the version or the current key.
step_key :
    (r : Runtime) (c : Call)
    → (step r c).config.protocol_version ≡ r.config.protocol_version
      × ((step r c).config.current_key_generation ≡ r.config.current_key_generation)
unfolding authenticate authorize verify_manifest check_replay rotate_keys append_audit
    verify_release verified
step_key r (authenticates p now) = ground arith
step_key r (authorizes q) = ground arith
step_key r (verifies m tenant) = ground arith
step_key r (checks t now) = ground arith
step_key r (rotates next now) = ground arith
step_key r (audits event) = ground arith
step_key r (releases m) = elim (Option-cases m.components) [
  | inl e ↦ ground arith
  | inr (x, e) ↦ ground arith
]

run_key :
    (r : Runtime) (cs : List Call)
    → (run r cs).config.protocol_version ≡ r.config.protocol_version
      × ((run r cs).config.current_key_generation ≡ r.config.current_key_generation)
run_key r [] = (refl, refl)
run_key r (c ∷ cs) = ground (arith, run_key (step r c) cs, step_key r c)

-- A signing that succeeds.
sign_some :
    (r : Runtime) (m s : SignedManifest)
    → sign_manifest r m ≡ some s
    → (s ≡ signed r m) × (m.tenant_namespace ≢ 0) × (m.protocol_version ≡ r.config.protocol_version)
unfolding sign_manifest
sign_some r m s e = ground arith

verify_genuine :
    (r : Runtime) (m : SignedManifest)
    → m.tenant_namespace ≢ 0
    → m.protocol_version ≡ r.config.protocol_version
    → m.key_generation ≡ r.config.current_key_generation
    → is_genuine m ≡ true
    → verify_manifest r m m.tenant_namespace ≡ (verified r, success)
unfolding verify_manifest
verify_genuine r m h v k g = ground arith

verify_signed :
    (r : Runtime) (m : SignedManifest) (cs : List Call)
    → m.tenant_namespace ≢ 0
    → m.protocol_version ≡ r.config.protocol_version
    → verify_manifest (run r cs) (signed r m) m.tenant_namespace ≡ (verified (run r cs), success)
unfolding signed
verify_signed r m cs h v =
    verify_genuine (run r cs) (signed r m) h (v ∙ sym (run_key r cs).0) (sym (run_key r cs).1)
      (signed_genuine r m)

words_length : (m : SignedManifest) → length (manifest_words m) < 256
unfolding manifest_words
words_length m = omega arith

-- A manifest that was signed is accepted for its tenant, as it was signed, after any further
-- calls, rotations of the keys included.
pub sign_verify :
    (r : Runtime) (m s : SignedManifest) (cs : List Call)
    → sign_manifest r m ≡ some s
    → verify_manifest (run r cs) s s.tenant_namespace ≡ (verified (run r cs), success)
unfolding signed
sign_verify r m s cs e =
    rw (sign_some r m s e).0 (verify_signed r m cs (sign_some r m s e).1 (sign_some r m s e).2)

-- A change to one of the words.
verify_accepts :
    (r : Runtime) (m : SignedManifest) (t : ℕ)
    → (verify_manifest r m t).1 ≡ success
    → is_genuine m ≡ true
unfolding verify_manifest
verify_accepts r m t e = ground arith

-- Two runtimes, two accepted manifests with the same signature and key.
accepted_words :
    (r q : Runtime) (m n : SignedManifest) (t u k v : ℕ)
    → All IsWord (manifest_words m)
    → IsWord v
    → manifest_words n ≡ set (manifest_words m) k v
    → n.key_generation ≡ m.key_generation
    → n.signature ≡ m.signature
    → (verify_manifest r m t).1 ≡ success
    → (verify_manifest q n u).1 ≡ success
    → manifest_words n ≡ manifest_words m
accepted_words r q m n t u k v hs hv e g s hm hn =
    e
    ∙ sym (
        digest32-set (manifest_words m) k v m.key_generation hs hv (words_length m) (
          genuine_signature m (verify_accepts r m t hm)
          ∙ sym s
          ∙ sym (genuine_signature n (verify_accepts q n u hn))
          ∙ ap (λ (x : List ℕ). digest32 x n.key_generation) e
          ∙ ap (digest32 (set (manifest_words m) k v)) g))

Status-cases : (s : Status) → (s ≡ success) ⊎ (s ≡ failure)
Status-cases success = inl refl
Status-cases failure = inr refl

-- Of two manifests with the same key and signature, where the first was accepted and the second
-- has one of the signed words, all of 64 bits, changed to another, the second is refused, by any
-- runtime.
pub verify_tamper :
    (r q : Runtime) (m n : SignedManifest) (t u k v : ℕ)
    → All IsWord (manifest_words m)
    → IsWord v
    → (verify_manifest r m t).1 ≡ success
    → manifest_words n ≡ set (manifest_words m) k v
    → manifest_words n ≢ manifest_words m
    → n.key_generation ≡ m.key_generation
    → n.signature ≡ m.signature
    → (verify_manifest q n u).1 ≡ failure
verify_tamper r q m n t u k v hs hv hm e d g s = elim (Status-cases (verify_manifest q n u).1) [
  | inl hn ↦ absurd (d (accepted_words r q m n t u k v hs hv e g s hm hn))
  | inr hn ↦ hn
]
