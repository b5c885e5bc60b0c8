-- ===== src/Journal/Decode.antt =====
-- A reader of the native protocol, for what `Encode` (internal/journal/journal.go) writes.
use synctang.Journal.{
  Field, max_value, cut_note, is_binary, put_uint64, shortened, field_bytes, fields_bytes, leading,
  encode,
}
use synctang.Prelude.{
  append_assoc, ℕ, zero, suc, ◌+◌, ◌*◌, ◌^◌, ◌≤◌, ◌<◌, ◌≡◌, ◌≢◌, refl, ap, ◌∙◌, Bool-cases, true,
  false, ◌||◌, ◌==◌, List, [], ◌∷◌, ◌++◌, Bytes, All, length, take, drop, take-append, drop-append,
  length-append, length-take, if◌then◌else◌, ltb, Option, none, some, arith, inl, inr,
}
use synctang.Text.{cut}

-- Up to the first '=' or newline: what stands before, which of the two it is, and what follows.
unfoldable pub scan_name : Bytes → Option (Bytes × ℕ × Bytes)
scan_name [] = none
scan_name (c ∷ s) =
    let rest = scan_name s in
    if c == b'=' || c == 10
    then some ([], c, s)
    else elim rest [ none ↦ none | some (name, sep, more) ↦ some (c ∷ name, sep, more) ]

abbrev pub little_endian : Bytes → ℕ
little_endian [] = 0
little_endian (b ∷ bs) = b + 256 * little_endian bs

abbrev closed : Bytes → Bytes → Option (Bytes × Bytes)
closed value [] = none
closed value (c ∷ rest) = if c == 10 then some (value, rest) else none

-- A value of `n` bytes and the newline after it.
abbrev pub counted : ℕ → Bytes → Option (Bytes × Bytes)
counted n s = closed (take n s) (drop n s)

abbrev value_after : ℕ → Bytes → Option (Bytes × Bytes)
value_after sep s = if sep == b'=' then cut 10 s else counted (little_endian (take 8 s)) (drop 8 s)

abbrev named : Bytes → Option (Bytes × Bytes) → Option (Field × Bytes)
named name none = none
named name (some (value, more)) = some (record { name = name; value = value }, more)

abbrev read_value : Option (Bytes × ℕ × Bytes) → Option (Field × Bytes)
read_value none = none
read_value (some (name, sep, rest)) = named name (value_after sep rest)

unfoldable pub decode_field : Bytes → Option (Field × Bytes)
unfolding scan_name cut
decode_field s = read_value (scan_name s)

abbrev add_field : Field → Option (List Field × Bytes) → Option (List Field × Bytes)
add_field f none = none
add_field f (some (fs, rest)) = some (f ∷ fs, rest)

abbrev and_then :
    Option (Field × Bytes) → (Bytes → Option (List Field × Bytes)) → Option (List Field × Bytes)
and_then none more = none
and_then (some (f, s)) more = add_field f (more s)

-- The first `n` fields.
unfoldable pub decode_fields : ℕ → Bytes → Option (List Field × Bytes)
unfolding decode_field
decode_fields zero s = some ([], s)
decode_fields (suc n) s = and_then (decode_field s) (λ more. decode_fields n more)

-- A name without '=' and newline.
abbrev pub IsName : Bytes → Type 0
IsName name = All (λ c. (c ≢ b'=') × (c ≢ 10)) name

scan_name-append :
    (name : Bytes) (sep : ℕ) (s : Bytes)
    → IsName name
    → ((sep == b'=' || sep == 10) ≡ true)
    → scan_name (name ++ (sep ∷ s)) ≡ some (name, sep, s)
unfolding scan_name
scan_name-append [] sep s h hs = ground arith
scan_name-append (c ∷ name) sep s ((he, hn), h) hs =
    ground (arith, scan_name-append name sep s h hs)

cut-append :
    (value s : Bytes) → is_binary value ≡ false → cut 10 (value ++ (10 ∷ s)) ≡ some (value, s)
unfolding cut is_binary
cut-append [] s h = ground arith
cut-append (c ∷ value) s h = ground (arith, cut-append value s (ground arith))

little_endian-put_uint64 : (n : ℕ) → n < 2 ^ 64 → little_endian (put_uint64 n) ≡ n
unfolding put_uint64
little_endian-put_uint64 n h = omega arith

counted-append : (value s : Bytes) → counted (length value) (value ++ (10 ∷ s)) ≡ some (value, s)
counted-append value s =
    ap (λ d. closed (take (length value) (value ++ (10 ∷ s))) d) (drop-append value (10 ∷ s))
    ∙ ap (λ t. closed t (10 ∷ s)) (take-append value (10 ∷ s))

length-shortened : (raw : Bytes) → length (shortened raw) < 2 ^ 64
unfolding shortened
length-shortened raw = elim (Bool-cases (ltb max_value (length raw))) [
  | inl long ↦
      let enough : max_value ≤ length raw = ground arith in
      let cut_length = length-take max_value raw enough in
      let sum = length-append (take max_value raw) cut_note in
      rw long (omega (arith, cut_length, sum))
  | inr short ↦ let bound : length raw ≤ max_value = ground arith in rw short (omega (arith, bound))
]

decode_text :
    (name value s : Bytes)
    → IsName name
    → is_binary value ≡ false
    → decode_field (name ++ (b'=' ∷ (value ++ (10 ∷ s))))
      ≡ some (record { name = name; value = value }, s)
unfolding decode_field
decode_text name value s hn h =
    ap read_value (scan_name-append name b'=' (value ++ (10 ∷ s)) hn refl)
    ∙ ap (named name) (cut-append value s h)

decode_binary :
    (name value s : Bytes)
    → IsName name
    → length value < 2 ^ 64
    → decode_field (name ++ (10 ∷ (put_uint64 (length value) ++ (value ++ (10 ∷ s)))))
      ≡ some (record { name = name; value = value }, s)
unfolding decode_field put_uint64
decode_binary name value s hn h =
    ap read_value
      (scan_name-append name 10 (put_uint64 (length value) ++ (value ++ (10 ∷ s))) hn refl)
    ∙ (ap (λ n. named name (counted n (value ++ (10 ∷ s))))
          (little_endian-put_uint64 (length value) h)
        ∙ ap (named name) (counted-append value s))

decode_field-field_bytes :
    (name raw s : Bytes)
    → IsName name
    → decode_field (field_bytes name raw ++ s)
      ≡ some (record { name = name; value = shortened raw }, s)
unfolding field_bytes
decode_field-field_bytes name raw s hn = elim (Bool-cases (is_binary (shortened raw))) [
  | inl binary ↦ rw binary (binary_case)
  | inr text ↦ rw text (text_case text)
]
  where
    text_case :
        is_binary (shortened raw) ≡ false
        → decode_field ((name ++ (b'=' ∷ (shortened raw ++ (10 ∷ [])))) ++ s)
          ≡ some (record { name = name; value = shortened raw }, s)
    text_case h =
        rw (append_assoc name (b'=' ∷ (shortened raw ++ (10 ∷ []))) s)
          (rw (append_assoc (shortened raw) (10 ∷ []) s) (decode_text name (shortened raw) s hn h))

    binary_case :
        decode_field (
          (name ++ (10 ∷ (put_uint64 (length (shortened raw)) ++ (shortened raw ++ (10 ∷ [])))))
          ++ s)
        ≡ some (record { name = name; value = shortened raw }, s)
    binary_case =
        rw
          (append_assoc name
            (10 ∷ (put_uint64 (length (shortened raw)) ++ (shortened raw ++ (10 ∷ [])))) s)
          (rw (append_assoc (put_uint64 (length (shortened raw))) (shortened raw ++ (10 ∷ [])) s) (
            rw (append_assoc (shortened raw) (10 ∷ []) s)
              (decode_binary name (shortened raw) s hn (length-shortened raw))))

-- The fields as the package cuts them.
abbrev pub all_shortened : List Field → List Field
all_shortened [] = []
all_shortened (f ∷ fs) = record { name = f.name; value = shortened f.value } ∷ all_shortened fs

abbrev pub field_count : List Field → ℕ
field_count [] = 0
field_count (f ∷ fs) = suc (field_count fs)

decode_fields-fields_bytes :
    (fs : List Field)
    → All (λ f. IsName f.name) fs
    → decode_fields (field_count fs) (fields_bytes fs) ≡ some (all_shortened fs, [])
unfolding decode_fields fields_bytes
decode_fields-fields_bytes [] h = refl
decode_fields-fields_bytes (f ∷ fs) (hf, hfs) =
    ap (λ o. and_then o (λ more. decode_fields (field_count fs) more))
      (decode_field-field_bytes f.name f.value (fields_bytes fs) hf)
    ∙ ap (add_field (record { name = f.name; value = shortened f.value }))
        (decode_fields-fields_bytes fs hfs)

-- A reader of the native protocol gets back from an entry the priority, the identifier, the message and
-- every field, in this order and with nothing left over, each value only cut to the size limit: for
-- all values, with newlines and zero bytes in them too, if the fields' names have neither '=' nor newline.
pub decode_fields-encode :
    (priority : ℕ) (identifier message : Bytes) (fields : List Field)
    → All (λ f. IsName f.name) fields
    → decode_fields (3 + field_count fields) (encode priority identifier message fields)
      ≡ some (all_shortened (leading priority identifier message fields), [])
unfolding encode
decode_fields-encode priority identifier message fields h =
    let count : 3 + field_count fields ≡ field_count (leading priority identifier message fields) =
      omega arith in
    rw count (
      decode_fields-fields_bytes (leading priority identifier message fields)
        (ground arith, (ground arith, (ground arith, h))))
