-- ===== src/Action.antt =====
-- A call that reads and changes a state and may fail: the state comes back after a failure too.
pub mod Triple
use synctang.Prelude.{
  ◌≡◌, refl, ap, arith, Bool, true, false, Option, none, some, Result, ok, err, if◌then◌else◌,
}

abbrev pub Action : Type 0 → Type 0 → Type 0 → Type 0
Action S E A = S → Result E A × S

module _ {S E : Type 0} where
  infixl 5 ◌>>=◌ ◌>>◌
  abbrev pub ◌>>=◌ : {A B : Type 0} → Action S E A → (A → Action S E B) → Action S E B
  ◌>>=◌ m f s = let (r, s') = m s in elim r [ ok a ↦ f a s' | err e ↦ (err e, s') ]

  abbrev pub ◌>>◌ : {B : Type 0} → Action S E (Unit {0}) → Action S E B → Action S E B
  m >> k = m >>= λ _. k

  abbrev pub pure : {A : Type 0} → A → Action S E A
  pure a s = (ok a, s)

  abbrev pub raise : {A : Type 0} → E → Action S E A
  raise e s = (err e, s)

  -- A pure result, its error under the caller's name.
  abbrev pub lift : {F A : Type 0} → (F → E) → Result F A → Action S E A
  lift f (ok a) = pure a
  lift f (err e) = raise (f e)

  abbrev pub raise_if : Bool → E → Action S E (Unit {0})
  raise_if b e s = (if b then err e else ok tt, s)

  -- A call whose first part succeeds goes on in the state that it leaves.
  pub bind_ok :
      {A B : Type 0} (m : Action S E A) (f : A → Action S E B) (a : A) (s : S)
      → (m s).0 ≡ ok a
      → (m >>= f) s ≡ f a (m s).1
  bind_ok {A} {B} m f a s h = go (m s) h
    where
      go :
          (out : Result E A × S)
          → out.0 ≡ ok a
          → elim out.0 as (λ r. Result E B × S) [ ok a ↦ f a out.1 | err e ↦ (err e, out.1) ]
            ≡ f a out.1
      go (ok b, t) h = let same : b ≡ a = ground arith in ap (λ x. f x t) same
      go (err e, t) h = absurd (ground arith)

  pub bind_err :
      {A B : Type 0} (m : Action S E A) (f : A → Action S E B) (e : E) (s : S)
      → (m s).0 ≡ err e
      → ((m >>= f) s).1 ≡ (m s).1
  bind_err {A} {B} m f e s h = go (m s) h
    where
      go :
          (out : Result E A × S)
          → out.0 ≡ err e
          → (elim out.0 as (λ r. Result E B × S) [ ok a ↦ f a out.1 | err e ↦ (err e, out.1) ]).1
            ≡ out.1
      go (ok b, t) h = absurd (ground arith)
      go (err d, t) h = refl
