-- ===== src/Pair/Messages.antt =====
-- mrcore/pair.go: the code of a pairing and the messages of the conversation. Base 32 is a parameter.
use synctang.Prelude.{
  ℕ, Bool, not, ◌==◌, Bytes, codes, length, Option, none, some, Result, ok, err, or_err, ◌>>=◌,
  fail_if,
}

-- `base32.StdEncoding` without padding, and strings.ToUpper and TrimSpace.
pub record Base32 : Type 0 where
  pub encode : Bytes → Bytes
  pub decode : Bytes → Option Bytes
  pub to_upper : Bytes → Bytes
  pub trim_space : Bytes → Bytes

pub data SecretError : Type 0 where
  no_randomness invalid_secret : SecretError
  secret_length : ℕ → SecretError

abbrev pub pairing_secret_len : ℕ
pairing_secret_len = 16

module _ (b : Base32) where
  -- The secret and its encoded form.
  unfoldable pub new_pairing_secret :
      {S : Type 0} → (ℕ → S → Option Bytes × S) → S → Result SecretError (Bytes × Bytes) × S
  new_pairing_secret rand_read src =
      let (r, src') = rand_read pairing_secret_len src in
      (elim r [ none ↦ err no_randomness | some secret ↦ ok (secret, b.encode secret) ], src')

  unfoldable pub decode_pairing_secret : Bytes → Result SecretError Bytes
  decode_pairing_secret encoded = do
    secret ← or_err invalid_secret (b.decode (b.to_upper (b.trim_space encoded)))
    right ← fail_if (not (length secret == pairing_secret_len)) (secret_length (length secret))
    ok secret

pub record PairChallenge : Type 0 where
  pub nonce : Bytes
  pub name : Bytes

pub record PairRequest : Type 0 where
  pub pub_key : Bytes
  pub name : Bytes
  pub proof : Bytes

pub record PairResult : Type 0 where
  pub succeeded : Bool
  pub error : Bytes

abbrev pub pair_refused_code_mismatch : Bytes
pair_refused_code_mismatch = codes "the pairing code did not match"

abbrev pub pair_refused_invalid_key : Bytes
pair_refused_invalid_key = codes "the public key offered is not a valid P-256 point"

abbrev pub pair_refused_declined : Bytes
pair_refused_declined = codes "the operator declined the pairing"

abbrev pub pair_refused_enrol_failed : Bytes
pair_refused_enrol_failed = codes "the machine could not enrol this key holder"
