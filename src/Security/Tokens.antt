-- ===== src/Security/Tokens.antt =====
-- The replay cache of src/security_release.cpp over runs of calls.
use mathlib.Core.Bool.{true≢false}
use chromo_fold.Prelude.{
  ℕ, ◌+◌, ◌<◌, ◌≤◌, true, false, ◌≡◌, ◌≢◌, ◌⊎◌, inl, inr, refl, ap, sym, ◌∙◌, arith, List, [], ◌∷◌,
  some, length, elem, leb, ◌==◌, ==→eq, Bool-cases, Option-cases,
}
use chromo_fold.Security.{
  Call, step, run, authenticates, authorizes, verifies, checks, rotates, audits, releases,
}
use chromo_fold.Security.Types.{Runtime, Config, ReplayToken, success, failure}
use chromo_fold.Security.Digest.{replay_hash}
use chromo_fold.Security.Access.{create, authenticate, authorize, rotate_keys}
use chromo_fold.Security.Manifests.{verify_manifest, verify_release, verified}
use chromo_fold.Security.Replay.{check_replay, append_audit, remembered, out_of_window, oldest}

-- A call that may fill the cache.
abbrev is_check : Call → ℕ
is_check (checks t now) = 1
is_check c = 0

abbrev count_checks : List Call → ℕ
count_checks [] = 0
count_checks (c ∷ cs) = is_check c + count_checks cs

abbrev pub capacity : Runtime → ℕ
capacity r = r.config.max_replay_entries

check_replay_cases :
    (r : Runtime) (t : ReplayToken) (now : ℕ)
    → ((elem (replay_hash t) r.replay_cache ≡ false)
        × ((check_replay r t now).0 ≡ remembered r (replay_hash t))
        × ((check_replay r t now).1 ≡ success))
      ⊎ (((check_replay r t now).0.config ≡ r.config)
          × ((check_replay r t now).0.replay_cache ≡ r.replay_cache)
          × ((check_replay r t now).1 ≡ failure))
unfolding check_replay
check_replay_cases r t now = ground arith

-- What a call does to the cache: nothing, or one more hash, before which a full cache is cleared.
step_cache :
    (r : Runtime) (c : Call)
    → (capacity (step r c) ≡ capacity r)
      × (((step r c).replay_cache ≡ r.replay_cache)
          ⊎ ((is_check c ≡ 1)
              × ((hash : ℕ) × (elem hash r.replay_cache ≡ false)
                  × ((step r c).replay_cache ≡ (remembered r hash).replay_cache))))
unfolding authenticate authorize verify_manifest remembered rotate_keys append_audit verify_release
    verified
step_cache r (authenticates p now) = ground arith
step_cache r (authorizes q) = ground arith
step_cache r (verifies m tenant) = ground arith
step_cache r (checks t now) = elim (check_replay_cases r t now) [
  | inl (h, e, o) ↦
      (ap capacity e, inr (refl, (replay_hash t, h, ap (λ (q : Runtime). q.replay_cache) e)))
  | inr h ↦ (ap (λ (k : Config). k.max_replay_entries) h.0, inl h.1)
]
step_cache r (rotates next now) = ground arith
step_cache r (audits event) = ground arith
step_cache r (releases m) = elim (Option-cases m.components) [
  | inl e ↦ ground arith
  | inr (x, e) ↦ ground arith
]

-- The cache of a runtime that a create made: no hash twice, and no more than its capacity.
abbrev IsUnique : List ℕ → Type 0
IsUnique [] = Unit {0}
IsUnique (x ∷ xs) = (elem x xs ≡ false) × IsUnique xs

abbrev pub IsWithin : Runtime → Type 0
IsWithin r = (1 ≤ capacity r) × (length r.replay_cache ≤ capacity r) × IsUnique r.replay_cache

bounded_remembered :
    (r : Runtime) (hash : ℕ)
    → elem hash r.replay_cache ≡ false
    → IsWithin r
    → (1 ≤ capacity r)
      × (length (remembered r hash).replay_cache ≤ capacity r)
      × IsUnique (remembered r hash).replay_cache
unfolding remembered
bounded_remembered r hash m h = elim (Bool-cases (leb (capacity r) (length r.replay_cache))) [
  | inl e ↦ rw e (h.0, h.0, (refl, tt))
  | inr e ↦ rw e (h.0, ground arith, (m, h.2))
]

pub kept :
    (r : Runtime) (new hash : ℕ)
    → elem hash r.replay_cache ≡ true
    → length r.replay_cache < capacity r
    → elem hash (remembered r new).replay_cache ≡ true
unfolding remembered
kept r new hash h l = ground arith

length-remembered :
    (r : Runtime) (new : ℕ)
    → length r.replay_cache < capacity r
    → length (remembered r new).replay_cache ≡ 1 + length r.replay_cache
unfolding remembered
length-remembered r new l = ground arith

step-IsWithin : (r : Runtime) (c : Call) → IsWithin r → IsWithin (step r c)
unfolding remembered
step-IsWithin r c h =
    let (k, s) = step_cache r c in
    elim s [
      | inl e ↦ rw (k, e) h
      | inr (o, (hash, m, e)) ↦ rw (k, e) (bounded_remembered r hash m h)
    ]

run-IsWithin : (r : Runtime) (cs : List Call) → IsWithin r → IsWithin (run r cs)
run-IsWithin r [] h = h
run-IsWithin r (c ∷ cs) h = run-IsWithin (step r c) cs (step-IsWithin r c h)

create-IsWithin : (k : Config) (r : Runtime) → create k ≡ some r → IsWithin r
unfolding create
create-IsWithin k r e = ground arith

-- After any calls on a created runtime, the replay cache holds no hash twice and no more hashes
-- than its capacity, which is at least one.
pub run-create-IsWithin :
    (k : Config) (r : Runtime) (cs : List Call) → create k ≡ some r → IsWithin (run r cs)
run-create-IsWithin k r cs e = run-IsWithin r cs (create-IsWithin k r e)

-- A hash that is in the cache, while there is room.
run_remembers :
    (r : Runtime) (cs : List Call) (hash : ℕ)
    → elem hash r.replay_cache ≡ true
    → length r.replay_cache + count_checks cs ≤ capacity r
    → elem hash (run r cs).replay_cache ≡ true
unfolding remembered
run_remembers r [] hash h l = h
run_remembers r (c ∷ cs) hash h l =
    let (k, s) = step_cache r c in
    elim s [
      | inl e ↦ run_remembers (step r c) cs hash (rw e h) (omega (arith, l, k, ap length e))
      | inr (o, (new, m, e)) ↦
          run_remembers (step r c) cs hash (rw e (kept r new hash h (omega (arith, o, l))))
            (omega (arith, o, l, k, ap length e, length-remembered r new (omega (arith, o, l))))
    ]

known_refused :
    (r : Runtime) (t : ReplayToken) (now : ℕ)
    → elem (replay_hash t) r.replay_cache ≡ true
    → (check_replay r t now).1 ≡ failure
unfolding check_replay
known_refused r t now h = ground arith

fresh_accepted :
    (r : Runtime) (t : ReplayToken) (now : ℕ)
    → t.peer_worker_id ≢ 0
    → t.nonce ≢ 0
    → out_of_window r t now ≡ false
    → elem (replay_hash t) r.replay_cache ≡ false
    → (check_replay r t now).1 ≡ success
unfolding check_replay
fresh_accepted r t now p n w h = ground arith

-- What an acceptance leaves.
pub accepted :
    (r : Runtime) (t : ReplayToken) (now : ℕ)
    → (check_replay r t now).1 ≡ success
    → (elem (replay_hash t) r.replay_cache ≡ false)
      × ((check_replay r t now).0 ≡ remembered r (replay_hash t))
unfolding check_replay
accepted r t now e = ground arith

remembered_self : (r : Runtime) (hash : ℕ) → elem hash (remembered r hash).replay_cache ≡ true
unfolding remembered
remembered_self r hash = ground arith

-- A token that was accepted is refused after any further calls, as long as the hashes in the cache
-- and the checks among the calls are together within its capacity.
pub replay_refused :
    (r : Runtime) (t : ReplayToken) (cs : List Call) (now later : ℕ)
    → (check_replay r t now).1 ≡ success
    → length (check_replay r t now).0.replay_cache + count_checks cs
      ≤ (check_replay r t now).0.config.max_replay_entries
    → (check_replay (run (check_replay r t now).0 cs) t later).1 ≡ failure
replay_refused r t cs now later e l = known_refused (run (check_replay r t now).0 cs) t later (
    run_remembers (check_replay r t now).0 cs (replay_hash t)
      (ap (λ (q : Runtime). elem (replay_hash t) q.replay_cache) (accepted r t now e).1
        ∙ remembered_self r (replay_hash t))
      l)

elem_ne : (xs : List ℕ) (a b : ℕ) → elem a xs ≡ false → elem b xs ≡ true → (a == b) ≡ false
elem_ne xs a b h k = elim (Bool-cases (a == b)) [
  | inl e ↦ absurd (true≢false (sym k ∙ ap (λ (x : ℕ). elem x xs) (sym (==→eq a b e)) ∙ h))
  | inr e ↦ e
]

forgotten :
    (r : Runtime) (new old : ℕ)
    → r.config.max_replay_entries ≤ length r.replay_cache
    → elem new r.replay_cache ≡ false
    → elem old r.replay_cache ≡ true
    → elem old (remembered r new).replay_cache ≡ false
unfolding remembered
forgotten r new old h a b = ground (arith, elem_ne r.replay_cache new old a b)

-- Where the replay cache is full, the acceptance of another token makes the cache forget: a token
-- that was refused as a replay, with its numbers not 0 and in its window, is accepted.
pub replay_forgotten :
    (r : Runtime) (t s : ReplayToken) (now later : ℕ)
    → r.config.max_replay_entries ≤ length r.replay_cache
    → (check_replay r t now).1 ≡ success
    → elem (replay_hash s) r.replay_cache ≡ true
    → s.peer_worker_id ≢ 0
    → s.nonce ≢ 0
    → out_of_window r s later ≡ false
    → ((check_replay r s later).1 ≡ failure)
      × ((check_replay (check_replay r t now).0 s later).1 ≡ success)
unfolding remembered out_of_window oldest
replay_forgotten r t s now later h e k p n w = (
  known_refused r s later k,
  rw (accepted r t now e).1 (
      fresh_accepted (remembered r (replay_hash t)) s later p n w
        (forgotten r (replay_hash t) (replay_hash s) h (accepted r t now e).0 k)),
)
