-- ===== src/Agent/Serve.antt =====
-- `serveOneExchange`: the token, the peers that may connect, and the exchange with the one that does;
-- and the payload of `answerAskPasswordFor`.
use synctang.Action.{◌>>=◌, pure, raise_if}
use synctang.Agent.Ask.{
  AskRequest, AskError, AskFile, pending_cryptsetup_requests, select_ask_request,
}
use synctang.Agent.Exchange.{Setting, Session, run_exchange}
use synctang.Agent.Peers.{
  AgentError, no_transport_ids, peers_of, authorized_peers_for, agent_name_for,
}
use synctang.Enrol.Entries.{transport_device_id, canonical_or_raw}
use synctang.Enrol.Host.{
  System, Host, Run, EnrolError, reading_header, no_recipients, luks_dump, run_command,
}
use synctang.Enrol.Reading.{is_negative, load_token}
use synctang.Mr1.Crypto.{Recipient}
use synctang.Prelude.{
  ◌≡◌, ◌≢◌, refl, subst, ◌⊎◌, inl, inr, List, [], ◌∷◌, Bytes, All, Option, none, some, Result, ok,
  err, arith,
}
use synctang.Token.Codec.{Token, elements}

pub data ServeError : Type 0 where
  loading : EnrolError → ServeError
  refused : AgentError → ServeError
  listening : ServeError

module _ (sys : System) where
  -- The token of the device, which has to be enrolled.
  unfoldable pub enrolled_token : Bytes → Bytes → Run sys Token
  unfolding run_command load_token
  enrolled_token device machine_name = do
    dump ← run_command sys reading_header (luks_dump device)
    (tok, id) ← load_token sys device dump machine_name []
    known ← raise_if (is_negative id) no_recipients
    pure tok

-- `listen` gives the session with the first of the peers that connects.
module _ (st : Setting)
    (listen : List Bytes → Option (Session st.World st.system.group.Source)) where
  -- The part after the token is read.
  unfoldable pub serve_token :
      Token
      → Bytes
      → Result ServeError (Unit {0}) × Option (Session st.World st.system.group.Source)
  serve_token tok machine_name = elim (authorized_peers_for st.system tok) [
    | err e ↦ (err (refused e), none)
    | ok peers ↦ elim (listen peers) [
      | none ↦ (err listening, none)
      | some s ↦
          let (out, s') = run_exchange st tok (agent_name_for machine_name tok.machine.name) s in
          (elim out [ ok u ↦ ok tt | err e ↦ err (refused e) ], some s')
    ]
  ]

  unfoldable pub serve_one_exchange :
      Bytes
      → Bytes
      → Host st.system.World st.system.group.Source
      → Result ServeError (Unit {0}) × Option (Session st.World st.system.group.Source)
  unfolding enrolled_token serve_token
  serve_one_exchange device machine_name h =
      elim (enrolled_token st.system device machine_name h).0 [
        | err e ↦ (err (loading e), none)
        | ok tok ↦ serve_token tok machine_name
      ]

-- The request that is answered, with what is written to its socket.
unfoldable pub answer_ask_password_for :
    (Bytes → Bytes) → List AskFile → Bytes → Bytes → Result AskError (Option (AskRequest × Bytes))
answer_ask_password_for resolve files device p = elim (pending_cryptsetup_requests files) [
  | err e ↦ err e
  | ok reqs ↦ ok (elim (select_ask_request resolve reqs device) [
    | none ↦ none
    | some req ↦ some (req, b'+' ∷ p)
  ])
]

-- The peer is the canonical transport id of one of the recipients.
abbrev pub IsPeerOf : (sys : System) → List Recipient → Bytes → Type 0
IsPeerOf sys [] p = ⊥
IsPeerOf sys (r ∷ rs) p =
    ((id : Bytes) × (transport_device_id sys r ≡ some id) × (canonical_or_raw sys id ≡ p))
    ⊎ IsPeerOf sys rs p

module _ (sys : System) where
  widen :
      (r : Recipient) (rs : List Recipient) (ps : List Bytes)
      → All (IsPeerOf sys rs) ps
      → All (IsPeerOf sys (r ∷ rs)) ps
  widen r rs [] h = tt
  widen r rs (p ∷ ps) (hp, hs) = (inr hp, widen r rs ps hs)

  peers_of-IsPeerOf : (rs : List Recipient) → All (IsPeerOf sys rs) (peers_of sys rs)
  unfolding peers_of
  peers_of-IsPeerOf [] = tt
  peers_of-IsPeerOf (r ∷ rs) = go (transport_device_id sys r) refl (peers_of-IsPeerOf rs)
    where
      go :
          (o : Option Bytes)
          → transport_device_id sys r ≡ o
          → All (IsPeerOf sys rs) (peers_of sys rs)
          → All (IsPeerOf sys (r ∷ rs)) (elim o [
            | none ↦ peers_of sys rs
            | some id ↦ canonical_or_raw sys id ∷ peers_of sys rs
          ])
      go none e hs = widen r rs (peers_of sys rs) hs
      go (some id) e hs = (inl (id, e, refl), widen r rs (peers_of sys rs) hs)

  -- The agent listens only for somebody: a list of peers that may connect is never empty, and every
  -- peer on it is the canonical transport id of an enrolled recipient.
  pub authorized_peers_for_sound :
      (tok : Token) (peers : List Bytes)
      → authorized_peers_for sys tok ≡ ok peers
      → (peers ≢ []) × All (IsPeerOf sys (elements tok.recipients)) peers
  unfolding authorized_peers_for
  authorized_peers_for_sound tok peers h =
      go (peers_of sys (elements tok.recipients)) (peers_of-IsPeerOf (elements tok.recipients)) h
    where
      go :
          (found : List Bytes)
          → All (IsPeerOf sys (elements tok.recipients)) found
          → elim found as (λ _. Result AgentError (List Bytes)) [
            | [] ↦ err no_transport_ids
            | p ∷ ps ↦ ok (p ∷ ps)
          ]
            ≡ ok peers
          → (peers ≢ []) × All (IsPeerOf sys (elements tok.recipients)) peers
      go [] hs h = absurd (ground arith)
      go (p ∷ ps) hs h =
          let same : p ∷ ps ≡ peers = ground arith in
          (
            (λ e. ground arith),
            subst (λ qs. All (IsPeerOf sys (elements tok.recipients)) qs) same hs,
          )
