-- ===== src/Session/Trial.antt =====
-- mobile/mobile.go: key pairs, and the recovery that the app makes against its own key in its tests.
use synctang.Action.{Action, ◌>>=◌, pure, lift}
use synctang.Group.{Group}
use synctang.Mr1.Crypto.{Mr1Error, Recipient, Crypto, wipe}
use synctang.Mr1.Finish.{finish_x_only}
use synctang.Mr1.Start.{enrol, challenge_start}
use synctang.Session.Failure.{Error, plain, because, protocol_failed, group_failed}
use synctang.Session.Key.{public_point_of, x_only_answer}
use synctang.Prelude.{ℕ, Bytes, Option, Result, ok, err, map_err}

pub record KeyPair : Type 0 where
  pub scalar : Bytes
  pub public : Bytes

pub record Challenge : Type 0 where
  pub recipient : Recipient
  pub e : Bytes
  pub x : Bytes
  pub secret : Bytes

abbrev pub from_mr1 : {S A : Type 0} → Action S Mr1Error A → Action S Error A
from_mr1 m s = let (r, s') = m s in (map_err (λ e. because (plain (protocol_failed e))) r, s')

module _ (g : Group) (order : Bytes) where
  unfoldable pub new_key_scalar : Action g.Source Error Bytes
  new_key_scalar src =
      let (r, s) = g.random_scalar src in (map_err (λ e. plain (group_failed e)) r, s)

  unfoldable pub new_key_pair : Action g.Source Error KeyPair
  unfolding new_key_scalar
  new_key_pair = do
    scalar ← new_key_scalar
    public ← lift (λ e. e) (public_point_of g order scalar)
    pure (record { scalar = scalar; public = public })

  module _ (cr : Crypto) where
    unfoldable pub enrol_and_challenge :
        (ℕ → g.Source → Option Bytes × g.Source) → Bytes → Action g.Source Error Challenge
    enrol_and_challenge rand_read s = do
      (secret, rec) ← from_mr1 (enrol g cr rand_read s)
      (e, x) ← from_mr1 (challenge_start g cr rand_read rec.c)
      pure (record { recipient = rec; e = e; x = x; secret = secret })

    -- `Finish`, which hands over a copy of the scalar.
    unfoldable pub finish_challenge : Challenge → Bytes → Result Error Bytes
    finish_challenge c x_only =
        map_err (λ e. plain (protocol_failed e)) (finish_x_only g cr c.e c.recipient x_only).0

    -- With the scalar as the deferred `Wipe` leaves it.
    unfoldable pub finish_with_scalar : Challenge → Bytes → Result Error Bytes × Bytes
    unfolding finish_challenge
    finish_with_scalar c scalar = (
      elim (x_only_answer g order c.x scalar) [ ok a ↦ finish_challenge c a | err e ↦ err e ],
      wipe scalar,
    )
