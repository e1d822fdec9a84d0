-- ===== src/Security/Digest.antt =====
-- The hashes of src/security_release.cpp: of manifests, of replay tokens, and of the audit chain.
use chromo_fold.Prelude.{ℕ, zero, suc, ◌*◌, ◌/◌, ◌%◌, ◌^◌, List, [], ◌∷◌, ◌++◌, bit_or, bit_xor}
use chromo_fold.Prelude.Words.{mul64}
use chromo_fold.Security.Types.{SignedManifest, ReplayToken}

-- value ^ (value >> bits)
abbrev pub fold_bits : ℕ → ℕ → ℕ
fold_bits value bits = bit_xor value (value / 2 ^ bits)

unfoldable pub mix64 : ℕ → ℕ
mix64 value = fold_bits (mul64 (fold_bits (mul64 (fold_bits value 30) first) 27) second) 31
  where
    first : ℕ
    first = 0xbf58476d1ce4e5b9

    second : ℕ
    second = 0x94d049bb133111eb

-- The first loop of digest32, from a word's index on.
unfoldable pub digest_state : ℕ → ℕ → List ℕ → ℕ
unfolding mix64
digest_state index state [] = state
digest_state index state (word ∷ words) =
    digest_state (suc index) (mix64 (bit_xor (bit_xor state word) index)) words

-- std::memcpy of a word: its bytes, the lowest first.
unfoldable pub le_bytes : ℕ → ℕ → List ℕ
le_bytes zero value = []
le_bytes (suc n) value = value % 256 ∷ le_bytes n (value / 256)

-- A turn of the second loop.
unfoldable pub digest_word : ℕ → ℕ → List ℕ
unfolding mix64 le_bytes
digest_word state index = le_bytes 8 (mix64 (bit_xor state (mul64 index 0x9e3779b97f4a7c15)))

unfoldable pub digest32 : List ℕ → ℕ → List ℕ
unfolding digest_state digest_word mix64
digest32 words key_generation =
    digest_word state 0 ++ digest_word state 1 ++ digest_word state 2 ++ digest_word state 3
  where
    state : ℕ
    state = digest_state 0 (mix64 (bit_xor 0x4348524f4d4f464f key_generation)) words

-- The words that a signature covers.
unfoldable pub manifest_words : SignedManifest → List ℕ
manifest_words m =
    m.tenant_namespace
    ∷ m.model_namespace
    ∷ m.page_identity_hash
    ∷ m.payload_bytes
    ∷ m.payload_checksum
    ∷ m.lease_generation
    ∷ m.owner_worker_id
    ∷ bit_or (m.protocol_version * 2 ^ 32) m.codec_version
    ∷ []

unfoldable pub replay_hash : ReplayToken → ℕ
unfolding mix64
replay_hash t =
    bit_xor (bit_xor (bit_xor (mix64 t.peer_worker_id) (mix64 t.nonce)) (mix64 t.timestamp_millis))
      (mix64 t.operation_hash)
