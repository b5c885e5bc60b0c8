-- ===== src/Enrol/Selection.antt =====
-- Which entry of a token `selectRecipient` (cmd/synctang-unlocker/enrol.go) chooses.
use synctang.Enrol.Host.{System}
use synctang.Enrol.Entries.{
  is_empty, has_transport_id, canonical_or_raw, matching_from, recipients_by_transport_id,
  keyslot_of, entry_in_keyslot, select_among, select_recipient,
}
use synctang.Mr1.Crypto.{Recipient}
use synctang.Prelude.{
  ℕ, zero, suc, ◌+◌, ◌<◌, ◌≡◌, refl, Bool, true, false, List, [], ◌∷◌, Bytes, bytes_eq, length,
  get_elem?, some, ok, if◌then◌else◌, arith, Option-cases, inl, inr, ◌⊎◌, ◌∙◌, sym,
}
use synctang.Token.Codec.{Token, elements}

-- `i` is among the indices.
abbrev pub Has : ℕ → List ℕ → Type 0
Has i [] = ⊥
Has i (j ∷ js) = (i ≡ j) ⊎ Has i js

-- Entry `i` of a list of recipients has the transport id.
abbrev pub HasId : (sys : System) → Bytes → List Recipient → ℕ → Type 0
HasId sys want rs i =
    (r : Recipient) × (get_elem? rs i ≡ some r) × (has_transport_id sys want r ≡ true)

module _ (sys : System) (want : Bytes) where
  matching_sound :
      (rs : List Recipient) (i j : ℕ)
      → Has j (matching_from sys want i rs)
      → (k : ℕ) × (j ≡ i + k) × HasId sys want rs k
  unfolding matching_from
  matching_sound [] i j h = absurd h
  matching_sound (r ∷ rs) i j h =
      go (has_transport_id sys want r) refl h (λ later. matching_sound rs (i + 1) j later)
    where
      go :
          (b : Bool)
          → has_transport_id sys want r ≡ b
          → Has j (
              if b
              then i ∷ matching_from sys want (i + 1) rs
              else matching_from sys want (i + 1) rs)
          → (Has j (matching_from sys want (i + 1) rs)
              → (k : ℕ) × (j ≡ (i + 1) + k) × HasId sys want rs k)
          → (k : ℕ) × (j ≡ i + k) × HasId sys want (r ∷ rs) k
      go true e (inl same) ih = (0, omega arith, (r, refl, e))
      go true e (inr later) ih = let (k, at, has_it) = ih later in (suc k, omega arith, has_it)
      go false e later ih = let (k, at, has_it) = ih later in (suc k, omega arith, has_it)

  matching_complete :
      (rs : List Recipient) (i k : ℕ)
      → HasId sys want rs k
      → Has (i + k) (matching_from sys want i rs)
  unfolding matching_from
  matching_complete [] i k (r, e, h) = absurd (ground arith)
  matching_complete (q ∷ rs) i zero (r, e, h) = go (has_transport_id sys want q) (ground arith)
    where
      go :
          (b : Bool)
          → b ≡ true
          → Has (i + 0) (
              if b
              then i ∷ matching_from sys want (i + 1) rs
              else matching_from sys want (i + 1) rs)
      go true e = inl (omega arith)
      go false e = absurd (ground arith)
  matching_complete (q ∷ rs) i (suc k) (r, e, h) = go (has_transport_id sys want q) (
      let e' : (i + 1) + k ≡ i + suc k = omega arith in
      rw e' at (matching_complete rs (i + 1) k (r, e, h)))
    where
      go :
          (b : Bool)
          → Has (i + suc k) (matching_from sys want (i + 1) rs)
          → Has (i + suc k) (
              if b
              then i ∷ matching_from sys want (i + 1) rs
              else matching_from sys want (i + 1) rs)
      go true later = inr later
      go false later = later

entry_in_keyslot_sound :
    (tok : Token) (keyslot : Bytes) (is_ : List ℕ) (i : ℕ)
    → entry_in_keyslot tok keyslot is_ ≡ some i
    → Has i is_ × (bytes_eq (keyslot_of tok i) keyslot ≡ true)
unfolding entry_in_keyslot
entry_in_keyslot_sound tok keyslot [] i h = absurd (ground arith)
entry_in_keyslot_sound tok keyslot (j ∷ js) i h =
    go (bytes_eq (keyslot_of tok j) keyslot) refl h (entry_in_keyslot_sound tok keyslot js i)
  where
    go :
        (b : Bool)
        → bytes_eq (keyslot_of tok j) keyslot ≡ b
        → (if b then some j else entry_in_keyslot tok keyslot js) ≡ some i
        → (entry_in_keyslot tok keyslot js ≡ some i
            → Has i js × (bytes_eq (keyslot_of tok i) keyslot ≡ true))
        → Has i (j ∷ js) × (bytes_eq (keyslot_of tok i) keyslot ≡ true)
    go true e found ih = let same : j ≡ i = ground arith in (inl (sym same), (rw same at e))
    go false e found ih = (inr (ih found).0, (ih found).1)

-- What a choice among the entries of an id means: with a keyslot named, an entry in that keyslot;
-- without one, the only entry.
abbrev pub IsChoice : Token → Bytes → List ℕ → ℕ → Type 0
IsChoice tok keyslot is_ i =
    Has i is_
    × (is_empty keyslot ≡ false → bytes_eq (keyslot_of tok i) keyslot ≡ true)
    × (is_empty keyslot ≡ true → (j : ℕ) → Has j is_ → j ≡ i)

select_among_sound :
    (tok : Token) (keyslot : Bytes) (is_ : List ℕ) (i : ℕ)
    → select_among tok keyslot is_ ≡ ok i
    → IsChoice tok keyslot is_ i
unfolding select_among
select_among_sound tok keyslot [] i h = absurd (ground arith)
select_among_sound tok [] (j ∷ []) i h =
    let same : j ≡ i = ground arith in
    (
      inl (sym same),
      (λ h. absurd (ground arith)),
      (λ _ k at. elim at [ inl e ↦ e ∙ same | inr x ↦ absurd x ]),
    )
select_among_sound tok [] (j ∷ k ∷ js) i h = absurd (ground arith)
select_among_sound tok (c ∷ cs) (j ∷ js) i h =
    elim (Option-cases (entry_in_keyslot tok (c ∷ cs) (j ∷ js))) [
      | inl none_ ↦ absurd (ground arith)
      | inr (n, e) ↦
          let same : n ≡ i = ground arith in
          let (among, slot) = entry_in_keyslot_sound tok (c ∷ cs) (j ∷ js) i (rw same at e) in
          (among, (λ _. slot), (λ h. absurd (ground arith)))
    ]

-- Why entry `i` is the one that is meant: it is in the keyslot that is named, or none is named and it is
-- the only entry with the id.
abbrev pub SingledOut : (sys : System) → Token → Bytes → Bytes → ℕ → Type 0
SingledOut sys tok id [] i =
    (j : ℕ) → HasId sys (canonical_or_raw sys id) (elements tok.recipients) j → j ≡ i
SingledOut sys tok id (c ∷ cs) i = bytes_eq (keyslot_of tok i) (c ∷ cs) ≡ true

-- An entry that is chosen exists and has the transport id; it is in the keyslot when one is named, and
-- it is the only entry with that id when none is.
pub select_recipient_sound :
    (sys : System) (tok : Token) (id keyslot : Bytes) (i : ℕ)
    → select_recipient sys tok id keyslot ≡ ok i
    → HasId sys (canonical_or_raw sys id) (elements tok.recipients) i
      × SingledOut sys tok id keyslot i
unfolding select_recipient recipients_by_transport_id
select_recipient_sound sys tok id keyslot i h =
    let want = canonical_or_raw sys id in
    let (among, slot, only) =
      select_among_sound tok keyslot (matching_from sys want 0 (elements tok.recipients)) i h in
    let (k, at, has_it) = matching_sound sys want (elements tok.recipients) 0 i among in
    let same : k ≡ i = omega arith in (rw same at has_it, single keyslot slot only)
  where
    single :
        (keyslot : Bytes)
        → (is_empty keyslot ≡ false → bytes_eq (keyslot_of tok i) keyslot ≡ true)
        → (is_empty keyslot ≡ true
            → (j : ℕ)
            → Has j (matching_from sys (canonical_or_raw sys id) 0 (elements tok.recipients))
            → j ≡ i)
        → SingledOut sys tok id keyslot i
    single [] slot only = λ j has_j.
        let z : 0 + j ≡ j = omega arith in
        only refl j (
          rw z at
            (matching_complete sys (canonical_or_raw sys id) (elements tok.recipients) 0 j has_j))
    single (c ∷ cs) slot only = slot refl

get_elem?-bound :
    {A : Type 0} (xs : List A) (i : ℕ) (a : A) → get_elem? xs i ≡ some a → i < length xs
get_elem?-bound [] i a h = absurd (ground arith)
get_elem?-bound (x ∷ xs) zero a h = omega arith
get_elem?-bound (x ∷ xs) (suc i) a h = omega (arith, get_elem?-bound xs i a h)

pub select_recipient-bound :
    (sys : System) (tok : Token) (id keyslot : Bytes) (i : ℕ)
    → select_recipient sys tok id keyslot ≡ ok i
    → i < length (elements tok.recipients)
select_recipient-bound sys tok id keyslot i h =
    let ((r, e, _), _) = select_recipient_sound sys tok id keyslot i h in
    get_elem?-bound (elements tok.recipients) i r e
