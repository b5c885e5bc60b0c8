-- ===== src/LuksDump/Slots.antt =====
-- The search for a free keyslot.
use synctang.LuksDump.{max_keyslots, used_keyslots, is_used, free_from, lowest_free_keyslot}
use synctang.Prelude.{
  ℕ, zero, suc, ◌+◌, ◌≤◌, ◌<◌, ◌≡◌, inl, inr, true, false, List, Bytes, Option, none, some, arith,
  Bool-cases,
}
use synctang.Text.{ℤ}
use native.Mathlib.Decide.{ℕ_discrete}

-- What a search that began at `i` has to say of the slots from `i` up to `i + left`.
pub data Search (used : List ℤ) (i left : ℕ) : Option ℕ → Type 0 where
  found :
      (k : ℕ)
      → i ≤ k
      → k < i + left
      → is_used used k ≡ false
      → ((j : ℕ) → i ≤ j → j < k → is_used used j ≡ true)
      → Search used i left (some k)
  full : ((j : ℕ) → i ≤ j → j < i + left → is_used used j ≡ true) → Search used i left none

first_or_later :
    (used : List ℤ) (i j : ℕ)
    → is_used used i ≡ true
    → i ≤ j
    → (suc i ≤ j → is_used used j ≡ true)
    → is_used used j ≡ true
first_or_later used i j here lo later = elim (ℕ_discrete i j) [
  | yes e ↦ rw (← e) here
  | no ne ↦ later (omega arith)
]

widen :
    (used : List ℤ) (i left : ℕ) {o : Option ℕ}
    → is_used used i ≡ true
    → Search used (i + 1) left o
    → Search used i (suc left) o
widen used i left taken (found k lo hi free below) =
    found k (omega arith) (omega arith) free
      (λ j a b. first_or_later used i j taken a (λ h. below j (omega arith) b))
widen used i left taken (full all) =
    full (λ j a b. first_or_later used i j taken a (λ h. all j (omega arith) (omega arith)))

free_from-Search : (used : List ℤ) (left i : ℕ) → Search used i left (free_from used left i)
unfolding free_from
free_from-Search used zero i = full (λ j lo hi. absurd (omega arith))
free_from-Search used (suc left) i = elim (Bool-cases (is_used used i)) [
  | inl taken ↦ rw taken (widen used i left taken (free_from-Search used left (i + 1)))
  | inr free ↦ rw free (found i (omega arith) (omega arith) free (λ j lo hi. absurd (omega arith)))
]

-- The keyslot chosen is the lowest of the 32 that the dump does not list, for every dump; and no
-- slot is chosen exactly when all 32 are listed.
pub lowest_free_keyslot-Search :
    (dump : Bytes) → Search (used_keyslots dump) 0 max_keyslots (lowest_free_keyslot dump)
unfolding lowest_free_keyslot
lowest_free_keyslot-Search dump = free_from-Search (used_keyslots dump) max_keyslots 0
