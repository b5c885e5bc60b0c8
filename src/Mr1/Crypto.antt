-- ===== src/Mr1/Crypto.antt =====
-- The data of the protocol and the primitives that it calls.
use synctang.Group.{GroupError}
use synctang.Prelude.{
  ℕ, ◌==◌, not, Bytes, length, replicate, Result, ok, or_err, ◌>>=◌, ◌>>◌, fail_if, Option,
}

abbrev pub secret_len : ℕ
secret_len = 32

abbrev pub nonce_len : ℕ
nonce_len = 12

pub record Recipient : Type 0 where
  pub kid : Bytes
  pub s : Bytes
  pub c : Bytes
  pub ciphertext : Bytes
  pub nonce : Bytes
  -- `json.RawMessage`, empty when there is none
  pub transport : Bytes

pub data Mr1Error : Type 0 where
  generating_secret generating_nonce : Mr1Error
  group_failed : GroupError → Mr1Error
  deriving_key : Mr1Error
  aead_failed : Mr1Error
  invalid_nonce_length : ℕ → Mr1Error
  authentication_failed : Mr1Error
  challenge_empty challenge_infinity : Mr1Error
  challenge_invalid : GroupError → Mr1Error

-- crypto/sha256, crypto/hkdf with the fixed info and length, crypto/aes and crypto/cipher.
pub record Crypto : Type 1 where
  pub sha256 : Bytes → Bytes
  pub hkdf_key : Bytes → Bytes → Option Bytes
  pub Aead : Type 0
  pub new_gcm : Bytes → Option Aead
  pub seal : Aead → Bytes → Bytes → Bytes
  pub open_sealed : Aead → Bytes → Bytes → Option Bytes

-- `Wipe`: every byte becomes zero.
unfoldable pub wipe : Bytes → Bytes
wipe b = replicate (length b) 0

module _ (cr : Crypto) where
  unfoldable pub aead_seal : Bytes → Bytes → Bytes → Result Mr1Error Bytes
  aead_seal key nonce plaintext = do
    gcm ← or_err aead_failed (cr.new_gcm key)
    ok (cr.seal gcm nonce plaintext)

  unfoldable pub aead_open : Bytes → Bytes → Bytes → Result Mr1Error Bytes
  aead_open key nonce ciphertext = do
    fail_if (not (length nonce == nonce_len)) (invalid_nonce_length (length nonce))
    gcm ← or_err aead_failed (cr.new_gcm key)
    or_err authentication_failed (cr.open_sealed gcm nonce ciphertext)
