-- ===== src/Action/Triple.antt =====
-- What an action does to a view of its state: a precondition, and a postcondition for a value and for
-- an error.
use synctang.Action.{Action, ◌>>=◌, lift}
use synctang.Prelude.{◌≡◌, refl, Result, ok, err}

module _ {S E V : Type 0} where
  abbrev pub Post :
      {A : Type 0} → (S → V) → (A → V → Type 0) → (E → V → Type 0) → Result E A × S → Type 0
  Post view Q R (ok a, s) = Q a (view s)
  Post view Q R (err e, s) = R e (view s)

  pub record Triple {A : Type 0} (view : S → V) (P : V → Type 0) (m : Action S E A)
      (Q : A → V → Type 0) (R : E → V → Type 0) : Type 0 where
    pub run : (s : S) → P (view s) → Post view Q R (m s)

  pub triple-bind :
      {A B : Type 0} {view : S → V} {P : V → Type 0} {R : E → V → Type 0} {Q' : B → V → Type 0}
      {m : Action S E A} {f : A → Action S E B} (Q : A → V → Type 0)
      → Triple view P m Q R
      → ((a : A) → Triple view (Q a) (f a) Q' R)
      → Triple view P (m >>= f) Q' R
  triple-bind {A} {B} {view} {P} {R} {Q'} {m} {f} Q hm hf = record {
    run = λ s p. go (m s) (hm.run s p);
  }
    where
      go :
          (out : Result E A × S)
          → Post view Q R out
          → Post view Q' R (elim out.0 [ ok a ↦ f a out.1 | err e ↦ (err e, out.1) ])
      go (ok a, t) q = (hf a).run t q
      go (err e, t) r = r

  pub triple-lift :
      {F A : Type 0} {view : S → V} {P : V → Type 0} {R : E → V → Type 0} {Q : A → V → Type 0}
      (f : F → E) (r : Result F A)
      → ((a : A) → (r ≡ ok a) → (v : V) → P v → Q a v)
      → ((e : F) → (r ≡ err e) → (v : V) → P v → R (f e) v)
      → Triple view P (lift f r) Q R
  triple-lift {view = view} f (ok a) ha he = record { run = λ s p. ha a refl (view s) p }
  triple-lift {view = view} f (err e) ha he = record { run = λ s p. he e refl (view s) p }

  -- A condition that both outcomes have.
  pub post-both :
      {A : Type 0} (view : S → V) (P : V → Type 0) (out : Result E A × S)
      → Post view (λ a. P) (λ e. P) out
      → P (view out.1)
  post-both view P (ok a, s) h = h
  post-both view P (err e, s) h = h

  pub both-Post :
      {A : Type 0} (view : S → V) (P : V → Type 0) (out : Result E A × S)
      → P (view out.1)
      → Post view (λ a. P) (λ e. P) out
  both-Post view P (ok a, s) h = h
  both-Post view P (err e, s) h = h
