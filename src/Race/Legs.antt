-- ===== src/Race/Legs.antt =====
-- The legs of a race, and sums over them.
use synctang.Prelude.{
  ℕ, zero, suc, ◌+◌, ◌*◌, ◌<◌, ◌≡◌, refl, Bool, true, ◌==◌, List, [], ◌∷◌, get_elem?, length,
  replicate, if◌then◌else◌, some, arith,
}

-- Where a leg stands: in its attempt, with its result in the channel, between two attempts, at its end
-- without a connection, or with its connection given to the caller or closed.
pub data Leg : Type 0 where
  running has_conn has_err pausing idle handed closed : Leg

module _ {ℓ} {A : Type ℓ} where
  -- A write out of range changes nothing.
  abbrev pub set : List A → ℕ → A → List A
  set [] i a = []
  set (x ∷ xs) zero a = a ∷ xs
  set (x ∷ xs) (suc i) a = x ∷ set xs i a

  pub get_elem?-set :
      (xs : List A) (i j : ℕ) (a b : A)
      → get_elem? xs i ≡ some b
      → get_elem? (set xs i a) j ≡ (if i == j then some a else get_elem? xs j)
  get_elem?-set [] i j a b h = absurd (ground arith)
  get_elem?-set (x ∷ xs) zero zero a b h = ground arith
  get_elem?-set (x ∷ xs) zero (suc j) a b h = ground arith
  get_elem?-set (x ∷ xs) (suc i) zero a b h = ground arith
  get_elem?-set (x ∷ xs) (suc i) (suc j) a b h = ground (arith, get_elem?-set xs i j a b h)

  pub length-set : (xs : List A) (i : ℕ) (a : A) → length (set xs i a) ≡ length xs
  length-set [] i a = refl
  length-set (x ∷ xs) zero a = omega arith
  length-set (x ∷ xs) (suc i) a = omega (arith, length-set xs i a)

  unfoldable pub sum_over : (A → ℕ) → List A → ℕ
  sum_over w [] = 0
  sum_over w (x ∷ xs) = w x + sum_over w xs

  pub sum_over-set :
      (w : A → ℕ) (xs : List A) (i : ℕ) (a b : A)
      → get_elem? xs i ≡ some b
      → sum_over w (set xs i a) + w b ≡ sum_over w xs + w a
  unfolding sum_over
  sum_over-set w [] i a b h = absurd (ground arith)
  sum_over-set w (x ∷ xs) zero a b h = ground arith
  sum_over-set w (x ∷ xs) (suc i) a b h = omega (arith, sum_over-set w xs i a b h)

  pub sum_over-replicate : (w : A → ℕ) (n : ℕ) (a : A) → sum_over w (replicate n a) ≡ n * w a
  unfolding sum_over
  sum_over-replicate w zero a = omega arith
  sum_over-replicate w (suc n) a = grind (arith, sum_over-replicate w n a)

-- `cancelAllExcept`, with no winner and with one.
abbrev pub cancel_all : List Bool → List Bool
cancel_all [] = []
cancel_all (b ∷ bs) = true ∷ cancel_all bs

abbrev pub cancel_except : ℕ → List Bool → List Bool
cancel_except w [] = []
cancel_except zero (b ∷ bs) = b ∷ cancel_all bs
cancel_except (suc w) (b ∷ bs) = true ∷ cancel_except w bs

pub get_elem?-cancel_except :
    (w : ℕ) (bs : List Bool) → get_elem? (cancel_except w bs) w ≡ get_elem? bs w
get_elem?-cancel_except w [] = refl
get_elem?-cancel_except zero (b ∷ bs) = refl
get_elem?-cancel_except (suc w) (b ∷ bs) = get_elem?-cancel_except w bs

pub get_elem?-replicate :
    {A : Type 0} (n i : ℕ) (a b : A) → get_elem? (replicate n a) i ≡ some b → (a ≡ b) × (i < n)
get_elem?-replicate zero i a b h = absurd (ground arith)
get_elem?-replicate (suc n) zero a b h = ground arith
get_elem?-replicate (suc n) (suc i) a b h = ground (arith, get_elem?-replicate n i a b h)

pub get_elem?-replicate-lt :
    {A : Type 0} (n i : ℕ) (a : A) → i < n → get_elem? (replicate n a) i ≡ some a
get_elem?-replicate-lt zero i a h = absurd (omega arith)
get_elem?-replicate-lt (suc n) zero a h = refl
get_elem?-replicate-lt (suc n) (suc i) a h = get_elem?-replicate-lt n i a (omega arith)

-- A weight that sums to nothing is nothing at each place.
pub sum_over-zero :
    {A : Type 0} (w : A → ℕ) (xs : List A) (i : ℕ) (a : A)
    → sum_over w xs ≡ 0
    → get_elem? xs i ≡ some a
    → w a ≡ 0
unfolding sum_over
sum_over-zero w [] i a h e = absurd (ground arith)
sum_over-zero w (x ∷ xs) zero a h e = ground arith
sum_over-zero w (x ∷ xs) (suc i) a h e = sum_over-zero w xs i a (omega arith) e

pub length-replicate : {A : Type 0} (n : ℕ) (a : A) → length (replicate n a) ≡ n
length-replicate zero a = refl
length-replicate (suc n) a = omega (arith, length-replicate n a)
