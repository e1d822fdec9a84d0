-- ===== src/Security/Chain.antt =====
-- The audit chain of src/security_release.cpp over runs of calls.
use chromo_fold.Prelude.{
  ℕ, suc, ◌+◌, ◌<◌, ◌≡◌, ◌≢◌, refl, sym, ◌∙◌, arith, List, [], ◌∷◌, All, length, All-set,
  length-set, map, set,
}
use chromo_fold.Prelude.Words.{add64, u64_mod}
use chromo_fold.Security.{run, audits}
use chromo_fold.Security.Types.{Runtime}
use chromo_fold.Security.Digest.{digest_state}
use chromo_fold.Security.Replay.{append_audit, next_link}
use chromo_fold.Security.Hashing.{IsWord, digest_state-set}

append_links :
    (r : Runtime) (x : ℕ)
    → x ≢ 0
    → r.counters.audit_records + 1 < u64_mod
    → ((append_audit r x).0.audit_chain ≡ next_link r.audit_chain x r.counters.audit_records)
      × ((append_audit r x).0.counters.audit_records ≡ suc r.counters.audit_records)
unfolding append_audit add64
append_links r x n h = ground arith

-- The audit chain.
audit_state :
    (events : List ℕ) (r : Runtime)
    → All (λ (x : ℕ). x ≢ 0) events
    → r.counters.audit_records + length events < u64_mod
    → (run r (map audits events)).audit_chain
      ≡ digest_state r.counters.audit_records r.audit_chain events
unfolding digest_state next_link
audit_state [] r n h = refl
audit_state (x ∷ xs) r n h =
    let (chain, records) = append_links r x n.0 (omega arith) in
    audit_state xs (append_audit r x).0 n.1 (omega (arith, records, h)) ∙ rw (chain, records) refl

-- Two audit chains that go on from one runtime, with events of 64 bits, not 0, that differ in one
-- event, do not end in the same hash, where the count of records does not wrap.
pub audit_tamper :
    (r : Runtime) (events : List ℕ) (k v : ℕ)
    → All IsWord events
    → All (λ (x : ℕ). x ≢ 0) events
    → IsWord v
    → v ≢ 0
    → IsWord r.audit_chain
    → r.counters.audit_records + length events < u64_mod
    → (run r (map audits events)).audit_chain ≡ (run r (map audits (set events k v))).audit_chain
    → events ≡ set events k v
audit_tamper r events k v hs ns hv nv hc hl e =
    digest_state-set events k v r.counters.audit_records r.audit_chain hs hv hl hc (
      sym (audit_state events r ns hl)
      ∙ e
      ∙ audit_state (set events k v) r (All-set (λ (x : ℕ). x ≢ 0) events k v ns nv)
          (omega (arith, hl, length-set events k v)))
