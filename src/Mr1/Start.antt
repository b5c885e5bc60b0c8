-- ===== src/Mr1/Start.antt =====
-- `Enrol` and `ChallengeStart`, which draw from the system's source of randomness.
use synctang.Action.{Action, ◌>>=◌, pure, lift}
use synctang.Group.{Group}
use synctang.Mr1.Crypto.{
  Recipient, Mr1Error, generating_secret, generating_nonce, group_failed, Crypto, aead_seal,
  secret_len, nonce_len,
}
use synctang.Mr1.Finish.{derive_key}
use synctang.Prelude.{ℕ, [], Bytes, Option, or_err, map_err}

module _ (g : Group) (cr : Crypto) (rand_read : ℕ → g.Source → Option Bytes × g.Source) where
  -- `make` and `rand.Read`
  unfoldable pub fresh_bytes : ℕ → Mr1Error → Action g.Source Mr1Error Bytes
  fresh_bytes n e src = let (b, src') = rand_read n src in (or_err e b, src')

  unfoldable pub fresh_scalar : Action g.Source Mr1Error Bytes
  fresh_scalar src = let (s, src') = g.random_scalar src in (map_err group_failed s, src')

  unfoldable pub enrol : Bytes → Action g.Source Mr1Error (Bytes × Recipient)
  unfolding fresh_bytes fresh_scalar
  enrol s = do
    secret ← fresh_bytes secret_len generating_secret
    c ← fresh_scalar
    big_c ← lift group_failed (g.scalar_base_mult c)
    big_k ← lift group_failed (g.scalar_mult s c)
    let kid = cr.sha256 s
    k ← lift (λ e. e) (derive_key g cr big_k kid)
    nonce ← fresh_bytes nonce_len generating_nonce
    ct ← lift (λ e. e) (aead_seal cr k nonce secret)
    pure (
      secret,
      record { kid = kid; s = s; c = big_c; ciphertext = ct; nonce = nonce; transport = [] },
    )

  unfoldable pub challenge_start : Bytes → Action g.Source Mr1Error (Bytes × Bytes)
  unfolding fresh_scalar
  challenge_start c = do
    e ← fresh_scalar
    big_e ← lift group_failed (g.scalar_base_mult e)
    x ← lift group_failed (g.add c big_e)
    pure (e, x)
