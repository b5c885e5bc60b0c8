-- ===== src/Assoc.antt =====
-- Go maps with string keys, as association lists; an assignment replaces the entry of its key.
use synctang.Prelude.{
  ◌≡◌, refl, ◌∙◌, Bool, List, [], ◌∷◌, Bytes, bytes_eq, bytes_eq_iff, if◌then◌else◌, Option, none,
  some, arith, Bool-cases, inl, inr,
}

abbrev pub Assoc : Type 0 → Type 0
Assoc V = List (Bytes × V)

module _ {V : Type 0} where
  unfoldable pub lookup : Bytes → Assoc V → Option V
  lookup key [] = none
  lookup key (entry ∷ entries) = if bytes_eq entry.0 key then some entry.1 else lookup key entries

  unfoldable pub insert : Bytes → V → Assoc V → Assoc V
  insert key new [] = (key, new) ∷ []
  insert key new (entry ∷ entries) =
      if bytes_eq entry.0 key then (key, new) ∷ entries else entry ∷ insert key new entries

  -- `for k, v := range from { m[k] = v }`
  unfoldable pub insert_all : Assoc V → Assoc V → Assoc V
  unfolding insert
  insert_all [] m = m
  insert_all ((k, v) ∷ rest) m = insert_all rest (insert k v m)

  -- The entries whose key passes a test.
  unfoldable pub keep_keys : (Bytes → Bool) → Assoc V → Assoc V
  keep_keys p [] = []
  keep_keys p ((k, v) ∷ m) = if p k then (k, v) ∷ keep_keys p m else keep_keys p m

  pub lookup-insert :
      (key other : Bytes) (new : V) (entries : Assoc V)
      → lookup other (insert key new entries)
        ≡ (if bytes_eq key other then some new else lookup other entries)
  unfolding lookup insert
  lookup-insert key other new [] = refl
  lookup-insert key other new ((at_, old) ∷ entries) = ground (
    arith,
    lookup-insert key other new entries,
    bytes_eq_iff at_ key,
    bytes_eq_iff key other,
    bytes_eq_iff at_ other,
  )

  pub lookup-keep_keys :
      (p : Bytes → Bool) (k : Bytes) (m : Assoc V)
      → lookup k (keep_keys p m) ≡ (if p k then lookup k m else none)
  unfolding lookup keep_keys
  lookup-keep_keys p k [] = ground arith
  lookup-keep_keys p k ((j, v) ∷ m) = ground (arith, bytes_eq_iff j k, lookup-keep_keys p k m)

  -- No key is listed twice.
  abbrev pub HasUniqueKeys : Assoc V → Type 0
  HasUniqueKeys [] = Unit {0}
  HasUniqueKeys ((k, v) ∷ m) = (lookup k m ≡ none) × HasUniqueKeys m

  abbrev pub or_else : Option V → Option V → Option V
  or_else none o = o
  or_else (some v) o = some v

  pub lookup-insert_all :
      (k : Bytes) (m acc : Assoc V)
      → HasUniqueKeys m
      → lookup k (insert_all m acc) ≡ or_else (lookup k m) (lookup k acc)
  unfolding insert_all lookup
  lookup-insert_all k [] acc h = refl
  lookup-insert_all k ((j, v) ∷ m) acc (h, hs) = lookup-insert_all k m (insert j v acc) hs ∙ later
    where
      later :
          or_else (lookup k m) (lookup k (insert j v acc))
          ≡ or_else (lookup k ((j, v) ∷ m)) (lookup k acc)
      later = elim (Bool-cases (bytes_eq j k)) [
        | inl same ↦ rw (lookup-insert j k v acc, same) (rw (← (bytes_eq_iff j k).0 same, h))
        | inr differ ↦ rw (lookup-insert j k v acc, differ)
      ]

  -- Every key has the property.
  abbrev pub HasKeys : (Bytes → Type 0) → Assoc V → Type 0
  HasKeys P [] = Unit {0}
  HasKeys P ((k, v) ∷ m) = P k × HasKeys P m

  pub HasKeys-insert :
      (P : Bytes → Type 0) (key : Bytes) (new : V) (m : Assoc V)
      → P key
      → HasKeys P m
      → HasKeys P (insert key new m)
  unfolding insert
  HasKeys-insert P key new [] p h = (p, tt)
  HasKeys-insert P key new ((k, v) ∷ m) p (q, h) = elim (Bool-cases (bytes_eq k key)) [
    | inl e ↦ rw e (p, h)
    | inr e ↦ rw e (q, HasKeys-insert P key new m p h)
  ]

  pub HasKeys-insert_all :
      (P : Bytes → Type 0) (m acc : Assoc V)
      → HasKeys P m
      → HasKeys P acc
      → HasKeys P (insert_all m acc)
  unfolding insert_all
  HasKeys-insert_all P [] acc h k = k
  HasKeys-insert_all P ((j, v) ∷ m) acc (p, h) k =
      HasKeys-insert_all P m (insert j v acc) h (HasKeys-insert P j v acc p k)
