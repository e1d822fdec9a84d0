-- ===== src/Cluster/Keys.antt =====
-- Page keys and lease tokens in src/disaggregated_serving.cpp. The bytes of a key are those of the
-- struct in memory on a little-endian machine; it has no padding.
use chromo_fold.Prelude.{ℕ, zero, suc, ◌+◌, ◌*◌, ◌/◌, ◌%◌, ◌^◌, List, [], ◌∷◌, ◌++◌, bit_xor}
use chromo_fold.Prelude.Words.{mul64}
use chromo_fold.Cluster.Types.{PageId}

hash_loop : List ℕ → ℕ → ℕ
hash_loop [] value = value
hash_loop (b ∷ bs) value = hash_loop bs (mul64 (bit_xor value b) 1099511628211)

hash_bytes : List ℕ → ℕ
unfolding hash_loop
hash_bytes bytes = hash_loop bytes 1469598103934665603

-- The `n` lowest bytes of a number, the lowest first.
le_bytes : ℕ → ℕ → List ℕ
le_bytes zero value = []
le_bytes (suc n) value = value % 256 ∷ le_bytes n (value / 256)

-- The number whose bytes these are, the lowest first.
spell : List ℕ → ℕ
spell [] = 0
spell (b ∷ bs) = b + 256 * spell bs

key_bytes : PageId → List ℕ
unfolding le_bytes
key_bytes id =
    id.model_sha256
    ++ id.tokenizer_sha256
    ++ id.token_sequence_sha256
    ++ le_bytes 8 id.rope_hash
    ++ le_bytes 8 id.compression_profile_hash
    ++ le_bytes 4 id.layer
    ++ le_bytes 4 id.page_index
    ++ le_bytes 4 id.page_size
    ++ le_bytes 4 id.codec_version

unfoldable pub page_key : PageId → ℕ
unfolding key_bytes spell
page_key id = spell (key_bytes id)

-- One turn of the loop in fill_token.
stir : ℕ → ℕ
stir seed = bit_xor second (second / 2 ^ 27)
  where
    first : ℕ
    first = bit_xor seed (seed / 2 ^ 12)

    second : ℕ
    second = bit_xor first (mul64 first (2 ^ 25))

token_bytes : ℕ → ℕ → List ℕ
unfolding stir
token_bytes zero seed = []
token_bytes (suc n) seed = stir seed % 256 ∷ token_bytes n (stir seed)

pub fill_token : PageId → ℕ → ℕ → ℕ
unfolding hash_bytes token_bytes key_bytes spell
fill_token id owner generation = spell (token_bytes 32 seed)
  where
    seed : ℕ
    seed =
        bit_xor (bit_xor (hash_bytes (key_bytes id)) owner) (mul64 generation 11400714819323198485)
