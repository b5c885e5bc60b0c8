-- ===== src/Agent/Requests.antt =====
-- Which password requests are pending, and which of them is answered.
use synctang.Agent.Ask.{
  AskRequest, AskFile, AskError, no_requests, wants_cryptsetup, expired, parse_ask_file,
  pending_request, pending_requests, pending_cryptsetup_requests, names_device, first_naming,
  select_ask_request,
}
use synctang.Prelude.{
  ℕ, ◌<◌, ◌≡◌, refl, Bool-cases, Option-cases, Result-cases, true, false, List, [], ◌∷◌, Bytes,
  codes, All, Option, none, some, Result, ok, err, arith, inl, inr, ◌⊎◌, if◌then◌else◌,
}
use synctang.Text.{StartsWith, has_prefix, has_prefix_iff}

-- A file of the directory holds a request that may be answered: it is named "ask.", its lines parse,
-- the id starts with "cryptsetup", and the time at which it expires is absent or still ahead, by the
-- clock when the clock can be read.
abbrev pub StillValid : Option ℕ → AskRequest → Type 0
StillValid none req = Unit {0}
StillValid (some n) req = (req.not_after ≡ 0) ⊎ (n < req.not_after)

pub record IsPending (file : AskFile) (req : AskRequest) : Type 0 where
  pub listed_name : StartsWith file.name (codes "ask.")
  pub parsed : (lines : List Bytes) × (file.lines ≡ some lines) × (parse_ask_file lines ≡ ok req)
  pub for_cryptsetup : StartsWith req.id (codes "cryptsetup")
  pub still_valid : StillValid file.clock req

-- The requests of exactly the files that hold one that may be answered, in the order of the files.
pub data Listing : List AskFile → List AskRequest → Type 0 where
  no_files : Listing [] []
  listed :
      {file : AskFile} {req : AskRequest} {files : List AskFile} {reqs : List AskRequest}
      → IsPending file req
      → Listing files reqs
      → Listing (file ∷ files) (req ∷ reqs)
  passed_over :
      {file : AskFile} {files : List AskFile} {reqs : List AskRequest}
      → ((req : AskRequest) → ¬ IsPending file req)
      → Listing files reqs
      → Listing (file ∷ files) reqs

expired-StillValid :
    (clock : Option ℕ) (req : AskRequest)
    → ((n : ℕ) → clock ≡ some n → expired req n ≡ false)
    → StillValid clock req
unfolding expired
expired-StillValid none req h = tt
expired-StillValid (some n) req h = let e = h n refl in ground arith

StillValid-expired : (n : ℕ) (req : AskRequest) → StillValid (some n) req → expired req n ≡ false
unfolding expired
StillValid-expired n req h = ground arith

pending_request-IsPending :
    (file : AskFile) (req : AskRequest) → pending_request file ≡ some req → IsPending file req
unfolding pending_request wants_cryptsetup
pending_request-IsPending file req h = elim (Option-cases file.lines) [
  | inl e ↦ absurd (ground arith)
  | inr (lines, e) ↦ elim (Result-cases (parse_ask_file lines)) [
    | inr (z, f) ↦ absurd (ground arith)
    | inl (req', f) ↦
        let same : req' ≡ req = ground arith in
        record {
          listed_name = (has_prefix_iff file.name (codes "ask.")).0 (ground arith);
          parsed = (lines, e, ground arith);
          for_cryptsetup = (has_prefix_iff req.id (codes "cryptsetup")).0 (ground arith);
          still_valid = expired-StillValid file.clock req (λ n k. ground arith);
        }
  ]
]

IsPending-pending_request :
    (file : AskFile) (req : AskRequest) → IsPending file req → pending_request file ≡ some req
unfolding pending_request wants_cryptsetup
IsPending-pending_request file req h =
    let (lines, e, f) = h.parsed in
    let named = (has_prefix_iff file.name (codes "ask.")).1 h.listed_name in
    let wanted = (has_prefix_iff req.id (codes "cryptsetup")).1 h.for_cryptsetup in
    rw (named, e, f, wanted) (by_clock file.clock h.still_valid)
  where
    by_clock :
        (clock : Option ℕ)
        → StillValid clock req
        → ◌≡◌ {A = Option AskRequest}
            (elim clock [ none ↦ some req | some n ↦ if expired req n then none else some req ])
            (some req)
    by_clock none v = refl
    by_clock (some n) v = rw (StillValid-expired n req v)

pending_requests-Listing : (files : List AskFile) → Listing files (pending_requests files)
unfolding pending_requests has_prefix
pending_requests-Listing [] = no_files
pending_requests-Listing (file ∷ files) = elim (Option-cases (pending_request file)) [
  | inl e ↦ rw e (
      passed_over (λ req h. let k = IsPending-pending_request file req h in ground arith)
        (pending_requests-Listing files))
  | inr (req, e) ↦
      rw e (listed (pending_request-IsPending file req e) (pending_requests-Listing files))
]

abbrev pub listing_of : List AskRequest → Result AskError (List AskRequest)
listing_of [] = err no_requests
listing_of (req ∷ reqs) = ok (req ∷ reqs)

-- What is listed as pending is the requests of exactly those files that are named "ask." and hold,
-- after parsing, a request of systemd-cryptsetup's which has no time of expiry, or expires later than
-- the clock says, or whose clock cannot be read; in the order of the files. It is an error if there is
-- none.
pub pending_cryptsetup_requests-Listing :
    (files : List AskFile)
    → (reqs : List AskRequest) × Listing files reqs
      × (pending_cryptsetup_requests files ≡ listing_of reqs)
unfolding pending_cryptsetup_requests
pending_cryptsetup_requests-Listing files =
    (pending_requests files, pending_requests-Listing files, same (pending_requests files))
  where
    same :
        (reqs : List AskRequest)
        → elim reqs as (λ _. Result AskError (List AskRequest)) [
          | [] ↦ err no_requests
          | req ∷ rest ↦ ok (req ∷ rest)
        ]
          ≡ listing_of reqs
    same [] = refl
    same (req ∷ rest) = refl

module _ (resolve : Bytes → Bytes) where
  -- No request of the list names the device.
  abbrev pub NoneNames : Bytes → List AskRequest → Type 0
  NoneNames want reqs = All (λ req. names_device resolve want req ≡ false) reqs

  first_naming_sound :
      (want : Bytes) (reqs : List AskRequest)
      → (first_naming resolve want reqs ≡ none) × NoneNames want reqs
        ⊎ ((r : AskRequest) × (first_naming resolve want reqs ≡ some r)
            × (names_device resolve want r ≡ true))
  unfolding first_naming
  first_naming_sound want [] = inl (refl, tt)
  first_naming_sound want (req ∷ reqs) = elim (Bool-cases (names_device resolve want req)) [
    | inl named ↦ inr (req, ground arith, named)
    | inr unnamed ↦ elim (first_naming_sound want reqs) [
      | inl (e, all_) ↦ inl (ground arith, (unnamed, all_))
      | inr (r, e, h) ↦ inr (r, ground arith, h)
    ]
  ]

  -- A request that is chosen for a device names that device, unless no pending request does; there is a
  -- choice whenever there is a request.
  pub select_ask_request_names :
      (req : AskRequest) (reqs : List AskRequest) (device : Bytes)
      → (r : AskRequest) × (select_ask_request resolve (req ∷ reqs) device ≡ some r)
        × ((names_device resolve (resolve device) r ≡ true)
            ⊎ NoneNames (resolve device) (req ∷ reqs))
  unfolding select_ask_request
  select_ask_request_names req reqs device =
      elim (first_naming_sound (resolve device) (req ∷ reqs)) [
        | inl (e, all_) ↦ (req, ground arith, inr all_)
        | inr (r, e, h) ↦ (r, ground arith, inl h)
      ]
