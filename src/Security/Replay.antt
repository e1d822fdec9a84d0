-- ===== src/Security/Replay.antt =====
-- Replay tokens and the audit chain in src/security_release.cpp.
use chromo_fold.Prelude.{
  ℕ, ◌-◌, Bool, ◌||◌, Option, none, some, [], ◌∷◌, ltb, leb, ◌==◌, if◌then◌else◌, length, elem,
  bit_xor,
}
use chromo_fold.Prelude.Words.{add64}
use chromo_fold.Security.Types.{ReplayToken, Status, success, failure, Runtime}
use chromo_fold.Security.Digest.{mix64, replay_hash}

unfoldable pub oldest : Runtime → ℕ → ℕ
oldest r now =
    if ltb r.config.replay_window_millis now then now - r.config.replay_window_millis else 0

unfoldable pub out_of_window : Runtime → ReplayToken → ℕ → Bool
unfolding oldest
out_of_window r t now =
    ltb t.timestamp_millis (oldest r now)
    || ltb (add64 now r.config.replay_window_millis) t.timestamp_millis

replay_rejected : Runtime → Runtime
replay_rejected r = record r {
  counters = record r.counters { replay_rejections = add64 r.counters.replay_rejections 1 };
}

-- A full cache is cleared before the hash goes in.
unfoldable pub remembered : Runtime → ℕ → Runtime
remembered r hash = record r {
  replay_cache =
      hash
      ∷ (if leb r.config.max_replay_entries (length r.replay_cache) then [] else r.replay_cache);
}

unfoldable pub check_replay : Runtime → ReplayToken → ℕ → Runtime × Status
unfolding out_of_window replay_hash replay_rejected remembered
check_replay r t now =
    if t.peer_worker_id == 0 || t.nonce == 0
    then (r, failure)
    else if out_of_window r t now
    then (replay_rejected r, failure)
    else if elem (replay_hash t) r.replay_cache
    then (replay_rejected r, failure)
    else (remembered r (replay_hash t), success)

unfoldable pub next_link : ℕ → ℕ → ℕ → ℕ
unfolding mix64
next_link chain event records = mix64 (bit_xor (bit_xor chain event) records)

chained : Runtime → ℕ → Runtime
unfolding next_link
chained r event = record r {
  audit_chain = next_link r.audit_chain event r.counters.audit_records;
  counters = record r.counters { audit_records = add64 r.counters.audit_records 1 };
}

-- The result is what `chain_hash` receives, none where the call returns -1.
unfoldable pub append_audit : Runtime → ℕ → Runtime × Option ℕ
unfolding chained
append_audit r event =
    if event == 0 then (r, none) else (chained r event, some (chained r event).audit_chain)
