-- ===== src/Mr1/Facts.antt =====
-- What successful calls of `enrol` and `challenge_start` have established, and the two facts on which
-- a recovery rests: the blinding cancels, and a cipher opens only what it sealed.
use synctang.Group.{Group}
use synctang.Group.Laws.{GroupLaws}
use synctang.Mr1.Crypto.{Recipient, Crypto, aead_seal, aead_open, nonce_len}
use synctang.Mr1.Finish.{derive_key}
use synctang.Mr1.Start.{enrol, challenge_start}
use synctang.Prelude.{
  ℕ, ◌≡◌, inl, inr, Bytes, length, ok, Option, Option-cases, Result-cases, some, arith,
}

-- What the standard library's cryptography documents: a cipher opens what it sealed, opening never
-- yields anything but what was sealed, and a read of random bytes fills its slice.
pub record CryptoLaws (g : Group) (cr : Crypto) (rand_read : ℕ → g.Source → Option Bytes × g.Source)
    : Type 0 where
  pub open-seal :
      (a : cr.Aead) (n p : Bytes)
      → length n ≡ nonce_len
      → cr.open_sealed a n (cr.seal a n p) ≡ some p
  pub open-seal_other :
      (a b : cr.Aead) (n p q : Bytes) → cr.open_sealed b n (cr.seal a n p) ≡ some q → q ≡ p
  pub rand_read_full :
      (n : ℕ) (src : g.Source) (b : Bytes) → (rand_read n src).0 ≡ some b → length b ≡ n

module _ (g : Group) (cr : Crypto) (rand_read : ℕ → g.Source → Option Bytes × g.Source)
    (gl : GroupLaws g) (cl : CryptoLaws g cr rand_read) where
  -- What a successful enrolment has established about its recipient entry.
  pub record Enrolled (s p : Bytes) (rec : Recipient) : Type 0 where
    pub c : Bytes
    pub shared : Bytes
    pub key : Bytes
    pub c-IsScalar : gl.IsScalar c
    pub base_c : g.scalar_base_mult c ≡ ok rec.c
    pub mult_c : g.scalar_mult s c ≡ ok shared
    pub holder : rec.s ≡ s
    pub derived : derive_key g cr shared rec.kid ≡ ok key
    pub nonce_size : length rec.nonce ≡ nonce_len
    pub sealed : aead_seal cr key rec.nonce p ≡ ok rec.ciphertext

  pub enrol-Enrolled :
      (s p : Bytes) (rec : Recipient) (src src' : g.Source)
      → enrol g cr rand_read s src ≡ (ok (p, rec), src')
      → Enrolled s p rec
  unfolding enrol
  enrol-Enrolled s p rec src src' h = elim (Option-cases (rand_read 32 src).0) [
    | inl e1 ↦ absurd (ground arith)
    | inr (secret, e1) ↦ elim (Result-cases (g.random_scalar (rand_read 32 src).1).0) [
      | inr (x, e2) ↦ absurd (ground arith)
      | inl (c, e2) ↦ elim (Result-cases (g.scalar_mult s c)) [
        | inr (x, e3) ↦ absurd (ground arith)
        | inl (shared, e3) ↦ elim (Result-cases (derive_key g cr shared (cr.sha256 s))) [
          | inr (x, e4) ↦ absurd (ground arith)
          | inl (key, e4) ↦ record {
            c = c;
            shared = shared;
            key = key;
            c-IsScalar = gl.random_scalar-IsScalar (rand_read 32 src).1 c e2;
            base_c = ground arith;
            mult_c = e3;
            holder = ground arith;
            derived = ground arith;
            nonce_size =
                cl.rand_read_full 12 (g.random_scalar (rand_read 32 src).1).1 rec.nonce
                  (ground arith);
            sealed = ground arith;
          }
        ]
      ]
    ]
  ]

  -- What a successful start of a challenge has established about the scalar and the point it sends.
  pub record Started (c e x : Bytes) : Type 0 where
    pub big_e : Bytes
    pub e-IsScalar : gl.IsScalar e
    pub base_e : g.scalar_base_mult e ≡ ok big_e
    pub sum : g.add c big_e ≡ ok x

  pub challenge_start-Started :
      (c e x : Bytes) (src src' : g.Source)
      → challenge_start g cr rand_read c src ≡ (ok (e, x), src')
      → Started c e x
  unfolding challenge_start
  challenge_start-Started c e x src src' h = elim (Result-cases (g.scalar_base_mult e)) [
    | inr (z, e1) ↦ absurd (ground arith)
    | inl (big_e, e1) ↦ record {
      big_e = big_e;
      e-IsScalar = gl.random_scalar-IsScalar src e (ground arith);
      base_e = e1;
      sum = ground arith;
    }
  ]

  -- The cancellation on which a recovery rests, for a key holder with scalar `s`.
  pub unblind :
      (s c e : ℕ)
      → gl.plus
          (gl.act s (gl.plus (gl.act c gl.base) (gl.act e gl.base)))
          (gl.minus (gl.act e (gl.act s gl.base)))
        ≡ gl.act c (gl.act s gl.base)
  unblind s c e = rw (gl.act-plus s, gl.act-act e s, gl.plus-minus) (gl.act-act s c gl.base)

  -- Opening with the key that enrolment derived gives the secret back.
  pub aead_open-seal :
      (key n p ct : Bytes)
      → length n ≡ nonce_len
      → aead_seal cr key n p ≡ ok ct
      → aead_open cr key n ct ≡ ok p
  unfolding aead_seal aead_open
  aead_open-seal key n p ct size h = elim (Option-cases (cr.new_gcm key)) [
    | inl e ↦ absurd (ground arith)
    | inr (a, e) ↦ ground (arith, cl.open-seal a n p)
  ]

  -- Whatever opens under any key is the secret that was sealed.
  pub aead_open-sealed :
      (key other n p q ct : Bytes)
      → aead_seal cr key n p ≡ ok ct
      → aead_open cr other n ct ≡ ok q
      → q ≡ p
  unfolding aead_seal aead_open
  aead_open-sealed key other n p q ct h k = elim (Option-cases (cr.new_gcm key)) [
    | inl e ↦ absurd (ground arith)
    | inr (a, e) ↦ elim (Option-cases (cr.new_gcm other)) [
      | inl f ↦ absurd (ground arith)
      | inr (b, f) ↦ ground (arith, cl.open-seal_other a b n p q)
    ]
  ]
