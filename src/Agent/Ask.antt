-- ===== src/Agent/Ask.antt =====
-- systemd's password requests, in cmd/synctang-unlocker/agent.go and discover.go: parsing a request,
-- the pending ones, and which device and which request are meant.
use synctang.Enrol.Entries.{is_empty}
use synctang.Prelude.{
  ℕ, Bool, false, not, ◌&&◌, ◌||◌, ◌==◌, List, [], ◌∷◌, Bytes, bytes_eq, codes, leb, if◌then◌else◌,
  Option, none, some, Result, ok, err, ◌>>=◌,
}
use synctang.Text.{has_prefix, trim_space, cut, parse_uint}

pub record AskRequest : Type 0 where
  pub socket : Bytes
  pub id : Bytes
  -- microseconds; 0 means never expires
  pub not_after : ℕ

pub data AskError : Type 0 where
  bad_not_after : Bytes → AskError
  no_socket : AskError
  no_requests : AskError
  no_candidate : AskError
  undecided : AskError

abbrev empty_request : AskRequest
empty_request = record { socket = []; id = []; not_after = 0 }

-- The switch on the key of a line.
unfoldable pub set_field : AskRequest → Bytes → Bytes → Result AskError AskRequest
set_field req key value =
    if bytes_eq key (codes "Socket")
    then ok (record { socket = trim_space value; id = req.id; not_after = req.not_after })
    else if bytes_eq key (codes "Id")
    then ok (record { socket = req.socket; id = trim_space value; not_after = req.not_after })
    else if bytes_eq key (codes "NotAfter")
    then elim (parse_uint 64 (trim_space value)) [
      | none ↦ err (bad_not_after value)
      | some n ↦ ok (record { socket = req.socket; id = req.id; not_after = n })
    ]
    else ok req

-- One line: blank lines, comments and section headings are passed over.
unfoldable pub parse_ask_line : AskRequest → Bytes → Result AskError AskRequest
unfolding set_field
parse_ask_line req raw =
    let line = trim_space raw in
    if is_empty line || (has_prefix line (codes "#") || has_prefix line (codes "["))
    then ok req
    else elim (cut b'=' line) [
      | none ↦ ok req
      | some parts ↦ set_field req (trim_space parts.0) parts.1
    ]

unfoldable pub parse_ask_lines : AskRequest → List Bytes → Result AskError AskRequest
unfolding parse_ask_line
parse_ask_lines req [] = ok req
parse_ask_lines req (line ∷ lines) = parse_ask_line req line >>= λ next. parse_ask_lines next lines

-- `parseAskFile` on the lines of a file that can be read.
unfoldable pub parse_ask_file : List Bytes → Result AskError AskRequest
unfolding parse_ask_lines
parse_ask_file lines = do
  req ← parse_ask_lines empty_request lines
  if is_empty req.socket then err no_socket else ok req

unfoldable pub wants_cryptsetup : AskRequest → Bool
wants_cryptsetup req = has_prefix req.id (codes "cryptsetup")

unfoldable pub expired : AskRequest → ℕ → Bool
expired req now_usec = not (req.not_after == 0) && leb req.not_after now_usec

-- A file of the directory: its name, its lines if it can be opened, and what the clock says when its
-- request is looked at, if the clock can be read.
pub record AskFile : Type 0 where
  pub name : Bytes
  pub lines : Option (List Bytes)
  pub clock : Option ℕ

-- The body of the loop of `pendingCryptsetupRequests`.
unfoldable pub pending_request : AskFile → Option AskRequest
unfolding wants_cryptsetup expired
pending_request file = if not (has_prefix file.name (codes "ask.")) then none else elim file.lines [
  | none ↦ none
  | some lines ↦ elim (parse_ask_file lines) [
    | err e ↦ none
    | ok req ↦
        if not (wants_cryptsetup req)
        then none
        else elim file.clock [ none ↦ some req | some n ↦ if expired req n then none else some req ]
  ]
]

unfoldable pub pending_requests : List AskFile → List AskRequest
unfolding pending_request
pending_requests [] = []
pending_requests (file ∷ files) = elim (pending_request file) [
  | none ↦ pending_requests files
  | some req ↦ req ∷ pending_requests files
]

-- `pendingCryptsetupRequests` on the entries of a directory that can be read.
unfoldable pub pending_cryptsetup_requests : List AskFile → Result AskError (List AskRequest)
unfolding pending_requests
pending_cryptsetup_requests files = elim (pending_requests files) [
  | [] ↦ err no_requests
  | req ∷ reqs ↦ ok (req ∷ reqs)
]

unfoldable pub find_cryptsetup_ask_request : List AskFile → Result AskError AskRequest
unfolding pending_requests
find_cryptsetup_ask_request files = elim (pending_requests files) [
  | [] ↦ err no_requests
  | req ∷ reqs ↦ ok req
]

-- The empty path: the id names no device.
unfoldable pub ask_id_device : Bytes → Bytes
ask_id_device id = elim (cut b':' id) [
  | none ↦ []
  | some parts ↦ if has_prefix parts.1 (codes "/") then parts.1 else []
]

module _ (resolve : Bytes → Bytes) where
  -- `path != "" && resolve(path) == want`
  unfoldable pub names_device : Bytes → AskRequest → Bool
  unfolding ask_id_device
  names_device want req =
      not (is_empty (ask_id_device req.id)) && bytes_eq (resolve (ask_id_device req.id)) want

  unfoldable pub first_naming : Bytes → List AskRequest → Option AskRequest
  unfolding names_device
  first_naming want [] = none
  first_naming want (req ∷ reqs) =
      let later = first_naming want reqs in if names_device want req then some req else later

  -- `none` is the result `false`.
  unfoldable pub select_ask_request : List AskRequest → Bytes → Option AskRequest
  unfolding first_naming
  select_ask_request [] device = none
  select_ask_request (req ∷ reqs) device = elim (first_naming (resolve device) (req ∷ reqs)) [
    | none ↦ some req
    | some r ↦ some r
  ]

  -- `asked[resolve(c)]`
  unfoldable pub is_asked_for : List Bytes → Bytes → Bool
  unfolding ask_id_device
  is_asked_for [] c = false
  is_asked_for (id ∷ ids) c =
      (not (is_empty (ask_id_device id)) && bytes_eq (resolve (ask_id_device id)) (resolve c))
      || is_asked_for ids c

  unfoldable pub first_asked_for : List Bytes → List Bytes → Result AskError Bytes
  unfolding is_asked_for
  first_asked_for ids [] = err undecided
  first_asked_for ids (c ∷ cs) =
      let later = first_asked_for ids cs in if is_asked_for ids c then ok c else later

  unfoldable pub choose_mr1_device : List Bytes → List Bytes → Result AskError Bytes
  unfolding first_asked_for
  choose_mr1_device [] ids = err no_candidate
  choose_mr1_device (c ∷ []) ids = ok c
  choose_mr1_device (c ∷ d ∷ cs) ids = first_asked_for ids (c ∷ d ∷ cs)
