-- ===== src/Agent/Peers.antt =====
-- `authorizedPeersFor`, `agentNameFor`, `matchRecipient` and `checkSecretLength`.
use synctang.Enrol.Entries.{
  is_empty, transport_device_id, canonical_or_raw, recipients_by_transport_id, keyslot_of,
}
use synctang.Enrol.Host.{System}
use synctang.Mr1.Crypto.{Recipient, Mr1Error}
use synctang.Prelude.{
  ℕ, ◌==◌, not, List, [], ◌∷◌, Bytes, length, get_elem?, none, some, Result, ok, err, or_err,
  fail_if, if◌then◌else◌,
}
use synctang.Token.Codec.{Token, elements}

pub data AgentError : Type 0 where
  no_transport_ids : AgentError
  no_match : AgentError
  -- the keyslots of the entries that share an id
  ambiguous : List Bytes → AgentError
  sending_hello sending_request reading_response : AgentError
  -- the key holder's reason
  declined : Bytes → AgentError
  starting_challenge finishing : Mr1Error → AgentError
  no_answer : AgentError
  secret_length : ℕ → AgentError
  does_not_open : AgentError
  delivering : AgentError

abbrev pub volume_secret_len : ℕ
volume_secret_len = 32

-- `cmp.Or`
unfoldable pub agent_name_for : Bytes → Bytes → Bytes
agent_name_for flag_name token_name = if is_empty flag_name then token_name else flag_name

unfoldable pub check_secret_length : Bytes → Result AgentError (Unit {0})
check_secret_length p = fail_if (not (length p == volume_secret_len)) (secret_length (length p))

module _ (sys : System) where
  -- The loop of `authorizedPeersFor`.
  unfoldable pub peers_of : List Recipient → List Bytes
  peers_of [] = []
  peers_of (r ∷ rs) = elim (transport_device_id sys r) [
    | none ↦ peers_of rs
    | some id ↦ canonical_or_raw sys id ∷ peers_of rs
  ]

  unfoldable pub authorized_peers_for : Token → Result AgentError (List Bytes)
  unfolding peers_of
  authorized_peers_for tok = elim (peers_of (elements tok.recipients)) [
    | [] ↦ err no_transport_ids
    | p ∷ ps ↦ ok (p ∷ ps)
  ]

  abbrev keyslots_of : Token → List ℕ → List Bytes
  keyslots_of tok [] = []
  keyslots_of tok (i ∷ is_) = keyslot_of tok i ∷ keyslots_of tok is_

  -- The switch of `matchRecipient`.
  unfoldable pub match_among : Token → List ℕ → Result AgentError Recipient
  match_among tok [] = err no_match
  match_among tok (i ∷ []) = or_err no_match (get_elem? (elements tok.recipients) i)
  match_among tok (i ∷ j ∷ is_) = err (ambiguous (keyslots_of tok (i ∷ j ∷ is_)))

  unfoldable pub match_recipient : Token → Bytes → Result AgentError Recipient
  unfolding match_among
  match_recipient tok peer_id = match_among tok (recipients_by_transport_id sys tok peer_id)
