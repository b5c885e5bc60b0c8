-- ===== src/Agent/Devices.antt =====
-- Which of the candidate devices is opened (cmd/synctang-unlocker/discover.go).
use synctang.Agent.Ask.{
  AskError, no_candidate, undecided, ask_id_device, is_asked_for, first_asked_for,
  choose_mr1_device,
}
use synctang.Enrol.Entries.{is_empty}
use synctang.Prelude.{
  ◌≡◌, refl, ap, Bool-cases, Option-cases, bytes_eq_iff, true, false, List, [], ◌∷◌, ◌++◌, Bytes,
  codes, All, some, Result, ok, err, arith, inl, inr, ◌⊎◌,
}
use synctang.Text.{
  StartsWith, has_prefix, has_prefix_iff, cut, cut_sound, cut-append_lacking, Lacks,
}

-- The id of a password request names a path: what stands after its first colon, if that starts with a
-- slash.
pub record NamesPath (id path : Bytes) : Type 0 where
  pub before : Bytes
  pub spelled : id ≡ before ++ (b':' ∷ path)
  pub first_colon : Lacks b':' before
  pub absolute : StartsWith path (codes "/")

ask_id_device-NamesPath :
    (id : Bytes) → is_empty (ask_id_device id) ≡ false → NamesPath id (ask_id_device id)
unfolding ask_id_device
ask_id_device-NamesPath id h = elim (Option-cases (cut b':' id)) [
  | inl e ↦ absurd (ground arith)
  | inr ((before, path), e) ↦
      let (spelled, lacks) = cut_sound b':' id before path e in
      let slash : has_prefix path (codes "/") ≡ true = ground arith in
      let here : ask_id_device id ≡ path = ground arith in
      rw here (record {
        before = before;
        spelled = spelled;
        first_colon = lacks;
        absolute = (has_prefix_iff path (codes "/")).0 slash;
      })
]

NamesPath-ask_id_device : (id path : Bytes) → NamesPath id path → ask_id_device id ≡ path
unfolding ask_id_device
NamesPath-ask_id_device id path h =
    let parts : cut b':' id ≡ some (h.before, path) =
      rw h.spelled (cut-append_lacking b':' h.before path h.first_colon) in
    let slash = (has_prefix_iff path (codes "/")).1 h.absolute in ground arith

NamesPath-nonempty : (id path : Bytes) → NamesPath id path → is_empty path ≡ false
NamesPath-nonempty id path h = let (rest, e) = h.absolute in rw e

module _ (resolve : Bytes → Bytes) where
  -- One of the ids names a path that resolves to what the device resolves to.
  abbrev pub IsNamed : List Bytes → Bytes → Type 0
  IsNamed [] device = ⊥
  IsNamed (id ∷ ids) device =
      ((path : Bytes) × NamesPath id path × (resolve path ≡ resolve device)) ⊎ IsNamed ids device

  is_asked_for-IsNamed :
      (ids : List Bytes) (device : Bytes)
      → is_asked_for resolve ids device ≡ true
      → IsNamed ids device
  unfolding is_asked_for
  is_asked_for-IsNamed [] device h = absurd (cc)
  is_asked_for-IsNamed (id ∷ ids) device h = elim (Bool-cases (is_asked_for resolve ids device)) [
    | inl later ↦ inr (is_asked_for-IsNamed ids device later)
    | inr e ↦ inl (
      ask_id_device id,
      ask_id_device-NamesPath id (ground arith),
      (bytes_eq_iff (resolve (ask_id_device id)) (resolve device)).0 (ground arith),
    )
  ]

  IsNamed-is_asked_for :
      (ids : List Bytes) (device : Bytes)
      → IsNamed ids device
      → is_asked_for resolve ids device ≡ true
  unfolding is_asked_for
  IsNamed-is_asked_for [] device h = absurd h
  IsNamed-is_asked_for (id ∷ ids) device (inl (path, names, same)) =
      let named = NamesPath-ask_id_device id path names in
      let nonempty = NamesPath-nonempty id path names in
      let equal = (bytes_eq_iff (resolve path) (resolve device)).1 same in
      rw (named, nonempty, equal) refl
  IsNamed-is_asked_for (id ∷ ids) device (inr later) =
      let k = IsNamed-is_asked_for ids device later in ground arith

  -- The device is named, and none of the candidates before it is.
  pub record FirstNamed (ids candidates : List Bytes) (device : Bytes) : Type 0 where
    pub before : List Bytes
    pub after : List Bytes
    pub splits : candidates ≡ before ++ (device ∷ after)
    pub is_named : IsNamed ids device
    pub none_before : All (λ d. ¬ IsNamed ids d) before

  -- What is chosen of the candidates: one that is alone is taken as it is.
  abbrev pub Chosen : List Bytes → List Bytes → Result AskError Bytes → Type 0
  Chosen ids [] r = r ≡ err no_candidate
  Chosen ids (c ∷ []) r = r ≡ ok c
  Chosen ids (c ∷ d ∷ ds) (ok chosen) = FirstNamed ids (c ∷ d ∷ ds) chosen
  Chosen ids (c ∷ d ∷ ds) (err e) = (e ≡ undecided) × All (λ x. ¬ IsNamed ids x) (c ∷ d ∷ ds)

  abbrev FirstOrNone : List Bytes → List Bytes → Result AskError Bytes → Type 0
  FirstOrNone ids cs (ok chosen) = FirstNamed ids cs chosen
  FirstOrNone ids cs (err e) = (e ≡ undecided) × All (λ x. ¬ IsNamed ids x) cs

  skip-FirstOrNone :
      (ids cs : List Bytes) (c : Bytes) (r : Result AskError Bytes)
      → ¬ IsNamed ids c
      → FirstOrNone ids cs r
      → FirstOrNone ids (c ∷ cs) r
  skip-FirstOrNone ids cs c (err e) unnamed (k, all_) = (k, (unnamed, all_))
  skip-FirstOrNone ids cs c (ok d) unnamed f = record {
    before = c ∷ f.before;
    after = f.after;
    splits = ap (λ (t : List Bytes). c ∷ t) f.splits;
    is_named = f.is_named;
    none_before = (unnamed, f.none_before);
  }

  first_asked_for-FirstOrNone :
      (ids cs : List Bytes) → FirstOrNone ids cs (first_asked_for resolve ids cs)
  unfolding first_asked_for
  first_asked_for-FirstOrNone ids [] = (refl, tt)
  first_asked_for-FirstOrNone ids (c ∷ cs) = elim (Bool-cases (is_asked_for resolve ids c)) [
    | inl e ↦ rw e (record {
      before = [];
      after = cs;
      splits = refl;
      is_named = is_asked_for-IsNamed ids c e;
      none_before = tt;
    })
    | inr e ↦ rw e (
        skip-FirstOrNone ids cs c (first_asked_for resolve ids cs)
          (λ n. let k = IsNamed-is_asked_for ids c n in ground arith)
          (first_asked_for-FirstOrNone ids cs))
  ]

  -- Of two or more candidate devices, the one that is chosen is the first to which the path in the id of
  -- a pending password request resolves, and it is an error if no id names any of them. A single
  -- candidate is chosen as it is, and no candidate is an error.
  pub choose_mr1_device-Chosen :
      (candidates ids : List Bytes)
      → Chosen ids candidates (choose_mr1_device resolve candidates ids)
  unfolding choose_mr1_device
  choose_mr1_device-Chosen [] ids = refl
  choose_mr1_device-Chosen (c ∷ []) ids = refl
  choose_mr1_device-Chosen (c ∷ d ∷ ds) ids =
      chosen (first_asked_for resolve ids (c ∷ d ∷ ds))
        (first_asked_for-FirstOrNone ids (c ∷ d ∷ ds))
    where
      chosen :
          (r : Result AskError Bytes) → FirstOrNone ids (c ∷ d ∷ ds) r → Chosen ids (c ∷ d ∷ ds) r
      chosen (ok x) f = f
      chosen (err e) f = f
