-- ===== src/Security/Rotation.antt =====
-- Key rotation in src/security_release.cpp over runs of calls: the current key never moves on.
use chromo_fold.Prelude.{ℕ, ◌+◌, ◌<◌, ◌≡◌, refl, ◌∙◌, arith, List, [], ◌∷◌, Option-cases, inl, inr}
use chromo_fold.Prelude.Words.{add64}
use chromo_fold.Security.{
  Call, step, run, authenticates, authorizes, verifies, checks, rotates, audits, releases,
}
use chromo_fold.Security.Types.{Runtime, PeerIdentity, failure}
use chromo_fold.Security.Access.{authenticate, authorize, rotate_keys}
use chromo_fold.Security.Manifests.{verify_manifest, verify_release, verified}
use chromo_fold.Security.Replay.{check_replay, append_audit, remembered}

abbrev is_rotation : Call → ℕ
is_rotation (rotates next now) = 1
is_rotation c = 0

abbrev count_rotations : List Call → ℕ
count_rotations [] = 0
count_rotations (c ∷ cs) = is_rotation c + count_rotations cs

step_rotation :
    (r : Runtime) (c : Call)
    → is_rotation c ≡ 0
    → ((step r c).config ≡ r.config)
      × ((step r c).rotation_started_millis ≡ r.rotation_started_millis)
unfolding authenticate authorize verify_manifest check_replay append_audit verify_release verified
    remembered
step_rotation r (authenticates p now) h = ground arith
step_rotation r (authorizes q) h = ground arith
step_rotation r (verifies m tenant) h = ground arith
step_rotation r (checks t now) h = ground arith
step_rotation r (rotates next now) h = absurd (omega arith)
step_rotation r (audits event) h = ground arith
step_rotation r (releases m) h = elim (Option-cases m.components) [
  | inl e ↦ ground arith
  | inr (x, e) ↦ ground arith
]

run_rotation :
    (r : Runtime) (cs : List Call)
    → count_rotations cs ≡ 0
    → ((run r cs).config ≡ r.config)
      × ((run r cs).rotation_started_millis ≡ r.rotation_started_millis)
run_rotation r [] h = (refl, refl)
run_rotation r (c ∷ cs) h =
    let (k, t) = step_rotation r c (omega (arith, h)) in
    let (ks, ts) = run_rotation (step r c) cs (omega (arith, h)) in (ks ∙ k, ts ∙ t)

-- After a rotation to a later key and any calls without another rotation, a peer with the next key
-- is refused once the grace period is over.
pub rotation_lapses :
    (r : Runtime) (cs : List Call) (p : PeerIdentity) (next now later : ℕ)
    → r.config.current_key_generation < next
    → count_rotations cs ≡ 0
    → p.key_generation ≡ next
    → add64 now r.config.rotation_grace_millis < later
    → (authenticate (run (rotate_keys r next now).0 cs) p later).1 ≡ failure
unfolding authenticate rotate_keys
rotation_lapses r cs p next now later h n k l =
    ground (arith, run_rotation (rotate_keys r next now).0 cs n)
