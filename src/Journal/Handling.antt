-- ===== src/Journal/Handling.antt =====
-- The handler: the fields of a record, its attributes and groups, and the state that a failed write
-- leaves. `send` is the socket's write. The values are already text.
use synctang.Journal.{Field, encode, leading, field_name, priority_of}
use synctang.Journal.Decode.{
  IsName, decode_fields, decode_fields-encode, all_shortened, field_count,
}
use synctang.Journal.Names.{Named, field_name_valid}
use synctang.Enrol.Entries.{is_empty}
use synctang.Prelude.{
  ℕ, ◌+◌, ◌≡◌, Bool, Bool-cases, inl, inr, true, false, ◌==◌, List, [], ◌∷◌, ◌++◌, Bytes, All,
  All-append, Option, none, some, if◌then◌else◌, arith,
}
use synctang.Text.{ℤ}

mutual
  pub data Attr : Type 0 where
    leaf : Bytes → Bytes → Attr
    group : Bytes → Attrs → Attr

  pub data Attrs : Type 0 where
    no_attrs : Attrs
    attr_and : Attr → Attrs → Attrs

abbrev pub dotted : Bytes → Bytes → Bytes
dotted prefix key = prefix ++ (key ++ (b'.' ∷ []))

abbrev pub named_field : Option Bytes → Bytes → List Field
named_field none value = []
named_field (some name) value = record { name = name; value = value } ∷ []

-- The closure `walk` of `Handle`, over one attribute and over the attributes of a group.
unfoldable mutual
  pub walk : Bytes → Attr → List Field
  walk prefix (leaf key value) = named_field (field_name (prefix ++ key)) value
  walk prefix (group key attrs) =
      walk_all (if is_empty key then prefix else dotted prefix key) attrs

  pub walk_all : Bytes → Attrs → List Field
  walk_all prefix no_attrs = []
  walk_all prefix (attr_and a attrs) = walk prefix a ++ walk_all prefix attrs

unfoldable pub walk_list : Bytes → List Attr → List Field
unfolding walk
walk_list prefix [] = []
walk_list prefix (a ∷ attrs) = walk prefix a ++ walk_list prefix attrs

pub record Handler : Type 0 where
  pub attrs : List Attr
  pub group : Bytes

pub record LogRecord : Type 0 where
  pub level : ℤ
  pub message : Bytes
  pub attrs : List Attr

unfoldable pub record_fields : Handler → LogRecord → List Field
unfolding walk_list
record_fields h r = walk_list [] h.attrs ++ walk_list h.group r.attrs

-- `handlerState`: whether a write has failed, and how often a failure was reported.
pub record Shared : Type 0 where
  pub failed : Bool
  pub reports : ℕ

-- `Handle`: what is written, if anything, and the state that it leaves.
unfoldable pub handle :
    (Bytes → Bool) → Bytes → Handler → LogRecord → Shared → Option Bytes × Shared
unfolding record_fields
handle send identifier h r sh =
    let data_ = encode (priority_of r.level) identifier r.message (record_fields h r) in
    if sh.failed
    then (none, sh)
    else if send data_
    then (some data_, sh)
    else (some data_, record { failed = true; reports = if sh.reports == 0 then 1 else sh.reports })

abbrev pub qualified : Bytes → Attr → Attr
qualified prefix (leaf key value) = leaf (prefix ++ key) value
qualified prefix (group key attrs) = group (prefix ++ key) attrs

unfoldable pub qualify : Bytes → List Attr → List Attr
qualify prefix [] = []
qualify prefix (a ∷ attrs) =
    (if is_empty prefix then a else qualified prefix a) ∷ qualify prefix attrs

unfoldable pub with_attrs : List Attr → Handler → Handler
unfolding qualify
with_attrs attrs h = record { attrs = h.attrs ++ qualify h.group attrs; group = h.group }

unfoldable pub with_group : Bytes → Handler → Handler
with_group name h =
    if is_empty name then h else record { attrs = h.attrs; group = dotted h.group name }

named_field-Named :
    (key value : Bytes) → All (λ f. IsName f.name) (named_field (field_name key) value)
named_field-Named key value = go (field_name key) (field_name_valid key)
  where
    go : (o : Option Bytes) → Named key o → All (λ f. IsName f.name) (named_field o value)
    go none h = tt
    go (some name) h = (h.0.readable, tt)

mutual
  unfolding walk

  walk-Named : (prefix : Bytes) (a : Attr) → All (λ f. IsName f.name) (walk prefix a)
  walk-Named prefix (leaf key value) = named_field-Named (prefix ++ key) value
  walk-Named prefix (group key attrs) =
      walk_all-Named (if is_empty key then prefix else dotted prefix key) attrs

  walk_all-Named :
      (prefix : Bytes) (attrs : Attrs) → All (λ f. IsName f.name) (walk_all prefix attrs)
  walk_all-Named prefix no_attrs = tt
  walk_all-Named prefix (attr_and a attrs) =
      All-append (λ f. IsName f.name) (walk prefix a) (walk_all prefix attrs) (walk-Named prefix a)
        (walk_all-Named prefix attrs)

walk_list-Named :
    (prefix : Bytes) (attrs : List Attr) → All (λ f. IsName f.name) (walk_list prefix attrs)
unfolding walk_list
walk_list-Named prefix [] = tt
walk_list-Named prefix (a ∷ attrs) =
    All-append (λ f. IsName f.name) (walk prefix a) (walk_list prefix attrs) (walk-Named prefix a)
      (walk_list-Named prefix attrs)

record_fields-Named : (h : Handler) (r : LogRecord) → All (λ f. IsName f.name) (record_fields h r)
unfolding record_fields
record_fields-Named h r =
    All-append (λ f. IsName f.name) (walk_list [] h.attrs) (walk_list h.group r.attrs)
      (walk_list-Named [] h.attrs) (walk_list-Named h.group r.attrs)

-- While no write has failed, every record is written, and a reader of the protocol gets back from what is
-- written the record's priority, its message and its fields, whatever keys, groups and values its
-- attributes have; if that write fails, the failure is reported once and the next record is not written.
pub handle_lem :
    (send : Bytes → Bool) (identifier : Bytes) (h : Handler) (r next : LogRecord) (sh : Shared)
    → sh.failed ≡ false
    → sh.reports ≡ 0
    → (data_ : Bytes) × ((handle send identifier h r sh).0 ≡ some data_)
      × (decode_fields (3 + field_count (record_fields h r)) data_
          ≡ some (
            all_shortened (leading (priority_of r.level) identifier r.message (record_fields h r)),
            [],
          ))
      × ((handle send identifier h r sh).1.reports ≡ (if send data_ then 0 else 1))
      × ((handle send identifier h next (handle send identifier h r sh).1).0 ≡ (
          if send data_
          then some (encode (priority_of next.level) identifier next.message (record_fields h next))
          else none))
unfolding handle
handle_lem send identifier h r next sh up none_yet =
    let data_ = encode (priority_of r.level) identifier r.message (record_fields h r) in
    let back =
      decode_fields-encode (priority_of r.level) identifier r.message (record_fields h r)
        (record_fields-Named h r) in
    elim (Bool-cases (send data_)) [
      | inl sent ↦ (data_, ground arith, back, ground arith, ground arith)
      | inr lost ↦ (data_, ground arith, back, ground arith, ground arith)
    ]
