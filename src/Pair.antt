-- ===== src/Pair.antt =====
-- The pairing proof of mrcore/pair.go. The MAC (crypto/hmac over crypto/sha256) is a parameter.
pub mod Binding
pub mod Messages
pub mod Machine
pub mod Console
mod Authorised
mod Guarded
mod Tests
use synctang.Prelude.{ℕ, ◌/◌, ◌%◌, ◌^◌, List, [], ◌∷◌, ◌++◌, Bytes, codes, length}

abbrev pub pair_proof_label : Bytes
pair_proof_label = codes "synctang-pair-v2"

-- The loop over i from 0 to 7 that fills `lenBuf[7-i]`.
unfoldable pub length_prefix : ℕ → Bytes
length_prefix n =
    n / 2 ^ 56 % 256
    ∷ n / 2 ^ 48 % 256
    ∷ n / 2 ^ 40 % 256
    ∷ n / 2 ^ 32 % 256
    ∷ n / 2 ^ 24 % 256
    ∷ n / 2 ^ 16 % 256
    ∷ n / 2 ^ 8 % 256
    ∷ n % 256
    ∷ []

-- What is written to the MAC, part by part.
unfoldable pub mac_input : List Bytes → Bytes
unfolding length_prefix
mac_input [] = []
mac_input (part ∷ parts) = length_prefix (length part) ++ (part ++ mac_input parts)

abbrev pub proof_parts : Bytes → Bytes → Bytes → Bytes → List Bytes
proof_parts machine_id peer_id pub_key nonce =
    pair_proof_label ∷ machine_id ∷ peer_id ∷ pub_key ∷ nonce ∷ []

unfoldable pub pair_proof : (Bytes → Bytes → Bytes) → Bytes → Bytes → Bytes → Bytes → Bytes → Bytes
pair_proof hmac secret machine_id peer_id pub_key nonce =
    hmac secret (mac_input (proof_parts machine_id peer_id pub_key nonce))
