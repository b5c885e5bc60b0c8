-- ===== src/Text.antt =====
-- Go's strings and strconv functions that the program uses, over byte strings. White space is ASCII
-- white space: cryptsetup, systemd and the program itself write no other.
use synctang.Prelude.{
  ℕ, zero, suc, ◌+◌, ◌-◌, ◌*◌, ◌/◌, ◌%◌, ◌^◌, ◌≡◌, ◌≢◌, ◌↔◌, inl, inr, Bool-cases, Option-cases,
  refl, ap, ◌∙◌, ==_iff, Bool, true, false, ◌&&◌, ◌||◌, List, [], ◌∷◌, ◌++◌, Bytes, All, ltb, leb,
  ◌==◌, if◌then◌else◌, Option, none, some, arith,
}

-- `strings.HasPrefix`
unfoldable pub has_prefix : Bytes → Bytes → Bool
has_prefix s [] = true
has_prefix [] (p ∷ ps) = false
has_prefix (c ∷ s) (p ∷ ps) = c == p && has_prefix s ps

unfoldable pub is_space : ℕ → Bool
is_space c = c == 32 || (leb 9 c && leb c 13)

unfoldable pub trim_left : Bytes → Bytes
unfolding is_space
trim_left [] = []
trim_left (c ∷ s) = let rest = trim_left s in if is_space c then rest else c ∷ s

abbrev keep_unless_blank : ℕ → Bytes → Bytes
unfolding is_space
keep_unless_blank c [] = if is_space c then [] else c ∷ []
keep_unless_blank c (d ∷ s) = c ∷ d ∷ s

unfoldable pub trim_right : Bytes → Bytes
unfolding is_space
trim_right [] = []
trim_right (c ∷ s) = keep_unless_blank c (trim_right s)

-- `strings.TrimSpace`
unfoldable pub trim_space : Bytes → Bytes
unfolding trim_left trim_right
trim_space s = trim_right (trim_left s)

abbrev pub push : ℕ → List Bytes → List Bytes
push c [] = (c ∷ []) ∷ []
push c (l ∷ ls) = (c ∷ l) ∷ ls

-- `strings.Split` at a one-byte separator.
unfoldable pub split : ℕ → Bytes → List Bytes
split sep [] = [] ∷ []
split sep (c ∷ s) = let rest = split sep s in if c == sep then [] ∷ rest else push c rest

-- `strings.Join` with a one-byte separator.
unfoldable pub join : ℕ → List Bytes → Bytes
join sep [] = []
join sep (l ∷ []) = l
join sep (l ∷ m ∷ ls) = l ++ (sep ∷ join sep (m ∷ ls))

-- `strings.Cut` at a one-byte separator; `none` when it is not found.
unfoldable pub cut : ℕ → Bytes → Option (Bytes × Bytes)
cut sep [] = none
cut sep (c ∷ s) =
    let rest = cut sep s in
    if c == sep then some ([], s) else elim rest [ none ↦ none | some r ↦ some (c ∷ r.0, r.1) ]

-- `negsuc n` is -(n + 1).
pub data ℤ : Type 0 where
  pos : ℕ → ℤ
  negsuc : ℕ → ℤ

unfoldable pub digits_value : ℕ → Bytes → Option ℕ
digits_value acc [] = some acc
digits_value acc (c ∷ s) =
    let rest = digits_value (acc * 10 + (c - 48)) s in if leb 48 c && leb c 57 then rest else none

unfoldable pub uint_value : Bytes → Option ℕ
uint_value [] = none
uint_value (c ∷ s) = digits_value 0 (c ∷ s)

-- `strconv.ParseUint` in base 10 with a bit size.
unfoldable pub parse_uint : ℕ → Bytes → Option ℕ
unfolding uint_value digits_value
parse_uint bits s = elim (uint_value s) [
  | none ↦ none
  | some n ↦ if ltb n (2 ^ bits) then some n else none
]

abbrev negated : ℕ → ℤ
negated zero = pos 0
negated (suc n) = negsuc n

abbrev signed : Option ℕ → Option ℤ
signed none = none
signed (some n) = if leb n (2 ^ 63) then some (negated n) else none

abbrev unsigned : Option ℕ → Option ℤ
unsigned none = none
unsigned (some n) = if ltb n (2 ^ 63) then some (pos n) else none

-- `strconv.Atoi` on a 64-bit machine.
unfoldable pub atoi : Bytes → Option ℤ
unfolding uint_value digits_value
atoi [] = none
atoi (c ∷ s) =
    if c == b'-'
    then signed (uint_value s)
    else if c == b'+'
    then unsigned (uint_value s)
    else unsigned (uint_value (c ∷ s))

-- The digits of `n` before those already written; `suc n` rounds are enough for `n`.
unfoldable pub digits_of : ℕ → ℕ → Bytes → Bytes
digits_of zero n acc = acc
digits_of (suc left) n acc =
    let more = digits_of left (n / 10) ((b'0' + n % 10) ∷ acc) in
    if ltb n 10 then (b'0' + n) ∷ acc else more

-- `strconv.Itoa` of a number that is not negative.
unfoldable pub itoa : ℕ → Bytes
unfolding digits_of
itoa n = digits_of (suc n) n []

-- A text without a separator in it.
abbrev pub Lacks : ℕ → Bytes → Type 0
Lacks sep s = All (λ c. c ≢ sep) s

-- What `strings.HasPrefix` asks, as a statement.
abbrev pub StartsWith : Bytes → Bytes → Type 0
StartsWith s prefix = (rest : Bytes) × (s ≡ prefix ++ rest)

pub has_prefix_iff : (s p : Bytes) → (has_prefix s p ≡ true) ↔ StartsWith s p
unfolding has_prefix
has_prefix_iff s [] = (λ h. (s, refl), λ h. refl)
has_prefix_iff [] (p ∷ ps) = (λ h. absurd (ground arith), λ (rest, e). absurd (ground arith))
has_prefix_iff (c ∷ s) (p ∷ ps) = (
  λ h. let (rest, e) = (has_prefix_iff s ps).0 (ground arith) in (rest, ground arith),
  λ (rest, e). let k = (has_prefix_iff s ps).1 (rest, ground arith) in ground arith,
)

pub cut_sound :
    (sep : ℕ) (s front back : Bytes)
    → cut sep s ≡ some (front, back)
    → (s ≡ front ++ (sep ∷ back)) × Lacks sep front
unfolding cut
cut_sound sep [] front back h = absurd (ground arith)
cut_sound sep (c ∷ s) front back h = elim (Bool-cases (c == sep)) [
  | inl e ↦ (ground arith, ground arith)
  | inr e ↦ elim (Option-cases (cut sep s)) [
    | inl f ↦ absurd (ground arith)
    | inr ((a, b), f) ↦ let (spelled, lacks) = cut_sound sep s a b f in (ground arith, ground arith)
  ]
]

pub cut-append_lacking :
    (sep : ℕ) (front back : Bytes)
    → Lacks sep front
    → cut sep (front ++ (sep ∷ back)) ≡ some (front, back)
unfolding cut
cut-append_lacking sep [] back h = ground arith
cut-append_lacking sep (c ∷ front) back (hc, h) =
    ground (arith, cut-append_lacking sep front back h)

join-push : (sep c : ℕ) (ls : List Bytes) → join sep (push c ls) ≡ c ∷ join sep ls
unfolding join
join-push sep c [] = refl
join-push sep c (l ∷ []) = refl
join-push sep c (l ∷ m ∷ ls) = refl

push-nonempty : (c : ℕ) (ls : List Bytes) → push c ls ≢ []
push-nonempty c [] h = cc
push-nonempty c (l ∷ ls) h = cc

split-nonempty : (sep : ℕ) (s : Bytes) → split sep s ≢ []
unfolding split
split-nonempty sep [] h = cc
split-nonempty sep (c ∷ s) h = elim (Bool-cases (c == sep)) [
  | inl e ↦ ground arith
  | inr e ↦ push-nonempty c (split sep s) (ground arith)
]

join_break : (sep : ℕ) (ls : List Bytes) → ls ≢ [] → join sep ([] ∷ ls) ≡ sep ∷ join sep ls
unfolding join
join_break sep [] h = absurd (h refl)
join_break sep (l ∷ ls) h = refl

-- Joining undoes splitting.
pub join-split : (sep : ℕ) (s : Bytes) → join sep (split sep s) ≡ s
unfolding split join
join-split sep [] = refl
join-split sep (c ∷ s) = elim (Bool-cases (c == sep)) [
  | inl e ↦ rw e (
      join_break sep (split sep s) (split-nonempty sep s)
      ∙ ground (arith, join-split sep s, ==_iff c sep))
  | inr e ↦ rw e (join-push sep c (split sep s) ∙ ap (λ (t : Bytes). c ∷ t) (join-split sep s))
]
