-- ===== src/Journal/Names.antt =====
-- The names that `FieldName` (internal/journal/journal.go) gives to attributes.
use synctang.Journal.{name_char, name_chars, is_own, starts_badly, field_name}
use synctang.Journal.Decode.{IsName}
use synctang.Prelude.{
  ℕ, suc, ◌≤◌, ◌≡◌, ◌≢◌, refl, ap, ◌⊎◌, inl, inr, Bool, Bool-cases, true, false, [], ◌∷◌, Bytes,
  bytes_eq, bytes_eq_iff, codes, All, length, Option, none, some, arith, if◌then◌else◌,
}

-- A capital letter, a digit or the underscore.
abbrev pub IsFieldChar : ℕ → Type 0
IsFieldChar c = ((65 ≤ c) × (c ≤ 90)) ⊎ (((48 ≤ c) × (c ≤ 57)) ⊎ (c ≡ 95))

name_char-IsFieldChar : (c : ℕ) → IsFieldChar (name_char c)
unfolding name_char
name_char-IsFieldChar c = ground arith

name_chars-IsFieldChar : (key : Bytes) → All IsFieldChar (name_chars key)
name_chars-IsFieldChar [] = tt
name_chars-IsFieldChar (c ∷ key) = (name_char-IsFieldChar c, name_chars-IsFieldChar key)

is_name : (name : Bytes) → All IsFieldChar name → IsName name
is_name [] h = tt
is_name (c ∷ name) (hc, h) = ((λ e. ground arith, λ e. ground arith), is_name name h)

abbrev IsCapital : ℕ → Type 0
IsCapital c = (65 ≤ c) × (c ≤ 90)

abbrev IsLetter : ℕ → Type 0
IsLetter c = IsCapital c ⊎ ((97 ≤ c) × (c ≤ 122))

-- The key starts with something else than a letter, or its name is one that the package sets itself.
abbrev pub IsUnusable : Bytes → Type 0
IsUnusable [] = Unit {0}
IsUnusable (c ∷ key) =
    (¬ IsLetter c)
    ⊎ ((name_chars (c ∷ key) ≡ codes "MESSAGE")
        ⊎ ((name_chars (c ∷ key) ≡ codes "PRIORITY")
            ⊎ (name_chars (c ∷ key) ≡ codes "SYSLOG_IDENTIFIER")))

-- A name that journald takes from a client, and that is not one of the entry's own.
pub record IsClientName (name : Bytes) : Type 0 where
  pub initial : (c : ℕ) × (rest : Bytes) × (name ≡ c ∷ rest) × IsCapital c
  pub chars : All IsFieldChar name
  pub no_message : name ≢ codes "MESSAGE"
  pub no_priority : name ≢ codes "PRIORITY"
  pub no_identifier : name ≢ codes "SYSLOG_IDENTIFIER"
  pub readable : IsName name

abbrev pub Named : Bytes → Option Bytes → Type 0
Named key none = IsUnusable key
Named key (some name) = IsClientName name × (length name ≡ length key)

length-name_chars : (key : Bytes) → length (name_chars key) ≡ length key
length-name_chars [] = refl
length-name_chars (c ∷ key) = ap suc (length-name_chars key)

good_start : (c : ℕ) (s : Bytes) → starts_badly (name_char c ∷ s) ≡ false → IsCapital (name_char c)
unfolding name_char
good_start c s h = ground arith

bad_start : (c : ℕ) (s : Bytes) → starts_badly (name_char c ∷ s) ≡ true → ¬ IsLetter c
unfolding name_char
bad_start c s h l = ground arith

is_own-names :
    (name : Bytes)
    → is_own name ≡ true
    → (name ≡ codes "MESSAGE") ⊎ ((name ≡ codes "PRIORITY") ⊎ (name ≡ codes "SYSLOG_IDENTIFIER"))
is_own-names name h = elim (Bool-cases (bytes_eq name (codes "MESSAGE"))) [
  | inl e ↦ inl ((bytes_eq_iff name (codes "MESSAGE")).0 e)
  | inr e ↦ elim (Bool-cases (bytes_eq name (codes "PRIORITY"))) [
    | inl f ↦ inr (inl ((bytes_eq_iff name (codes "PRIORITY")).0 f))
    | inr f ↦ inr (inr ((bytes_eq_iff name (codes "SYSLOG_IDENTIFIER")).0 (rw (e, f) at h)))
  ]
]

-- The name of a key begins with a capital letter, consists of capital letters, digits and underscores
-- only, is as long as the key, is none of the three names that the package sets itself, and can be read
-- back. Only a key that is empty, that begins with anything but a letter, or whose name would be one of
-- those three is refused. The keys are ASCII.
pub field_name_valid : (key : Bytes) → Named key (field_name key)
unfolding field_name
field_name_valid [] = tt
field_name_valid (c ∷ key) =
    go (starts_badly (name_chars (c ∷ key))) (is_own (name_chars (c ∷ key))) refl refl
  where
    go :
        (bad own : Bool)
        → starts_badly (name_chars (c ∷ key)) ≡ bad
        → is_own (name_chars (c ∷ key)) ≡ own
        → Named (c ∷ key) (if bad then none else if own then none else some (name_chars (c ∷ key)))
    go true own hb ho = inl (bad_start c (name_chars key) hb)
    go false true hb ho = inr (is_own-names (name_chars (c ∷ key)) ho)
    go false false hb ho =
        let chars = name_chars-IsFieldChar (c ∷ key) in
        (
          record {
            initial = (name_char c, name_chars key, refl, good_start c (name_chars key) hb);
            chars = chars;
            no_message = λ e.
                let k = (bytes_eq_iff (name_chars (c ∷ key)) (codes "MESSAGE")).1 e in ground arith;
            no_priority = λ e.
                let k = (bytes_eq_iff (name_chars (c ∷ key)) (codes "PRIORITY")).1 e in
                ground arith;
            no_identifier = λ e.
                let k = (bytes_eq_iff (name_chars (c ∷ key)) (codes "SYSLOG_IDENTIFIER")).1 e in
                ground arith;
            readable = is_name (name_chars (c ∷ key)) chars;
          },
          length-name_chars (c ∷ key),
        )
