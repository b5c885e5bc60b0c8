-- ===== src/Session/Phone.antt =====
-- The phone: its session, and what the session calls. The network, the JSON codec at each message, the
-- certificate of a seed and package unicode are parameters. A connection delivers the bytes that `pull`
-- says and takes those that are written to it; `ends_under` and `reply_expires` say whether a
-- time limit (or Cancel) closes the connection before the reads under it are done.
use synctang.Action.{Action}
use synctang.Group.{Group}
use synctang.Io.{Writer}
use synctang.Label.{Unicode}
use synctang.Mr1.Crypto.{Crypto}
use synctang.Network.Config.{NetworkConfig}
use synctang.Network.Url.{UrlLib}
use synctang.Progress.{Progress}
use synctang.Progress.Stages.{Report}
use synctang.Session.Failure.{Error, plain, wire_failed, kind_of, because}
use synctang.Wire.{
  Hello, RecoverRequest, RecoverResponse, RecoverResult, WireError, read_message, write_message,
}
use synctang.Prelude.{ℕ, Bool, List, Bytes, Option, none, some, Result, ok, err, map_err}

pub record Phone : Type 1 where
  pub World : Type 0
  pub Cert : Type 0
  pub Conn : Type 0
  pub group : Group
  pub crypto : Crypto
  pub order : Bytes
  pub unicode : Unicode
  pub urls : UrlLib
  -- `identity.GenerateDeterministicCert`, and `strings.TrimSpace` for any white space
  pub generate_cert : Bytes → Option Cert
  pub trim_space : Bytes → Bytes
  -- The dial of one attempt: who is asked for, an address to use directly, the discovery server. The
  -- reports are the calls of the hooks of its transports.
  pub dial : Cert → Bytes → Bytes → NetworkConfig → World → Option Conn × List Report × World
  pub peer_id : Conn → Bytes
  pub pull : Conn → World → Bytes
  pub consumed : Conn → Bytes → World → World
  pub write : Conn → Bytes → World → Option (Unit {0}) × World
  pub close : Conn → World → World
  pub ends_under : Conn → World → Bool
  pub reply_expires : Conn → World → Bool
  -- whether Cancel has been called on another thread since the last look
  pub interrupted : World → Bool × World
  -- the wait between two attempts: whether the context has ended
  pub deadline : World → Bool × World
  pub hello_of : Bytes → Option Hello
  pub request_of : Bytes → Option RecoverRequest
  pub result_of : Bytes → Option RecoverResult
  pub response_to : RecoverResponse → Option Bytes

pub record Session (Conn : Type 0) : Type 0 where
  -- whether a cancel function is recorded
  pub cancel : Bool
  pub cancelled : Bool
  pub failure : ℕ × Bytes
  pub progress : Progress
  pub seed : Bytes
  pub machine_id : Bytes
  pub direct_addr : Bytes
  pub timeout_seconds : ℕ
  pub network : NetworkConfig
  pub conn : Option Conn
  pub machine_name : Bytes
  pub kid : Bytes
  pub x : Bytes
  pub answered : Bool

pub record Host (World Conn : Type 0) : Type 0 where
  pub session : Session Conn
  pub world : World

abbrev pub HostOf : Phone → Type 0
HostOf ph = Host ph.World ph.Conn

abbrev pub Call : Phone → Type 0 → Type 0
Call ph A = Action (HostOf ph) Error A

module _ (ph : Phone) where
  abbrev pub SessionOf : Type 0
  SessionOf = Session ph.Conn

  abbrev pub change : (SessionOf → SessionOf) → Call ph (Unit {0})
  change f h = (ok tt, record h { session = f h.session })

  abbrev pub asks : {A : Type 0} → (SessionOf → A) → Call ph A
  asks f h = (ok (f h.session), h)

  abbrev pub wire_error : {A : Type 0} → Result WireError A → Result Error A
  wire_error r = map_err (λ e. because (plain (wire_failed e))) r

  -- `mrcore.ReadMessage` on a connection.
  unfoldable pub receive : {V : Type 0} → (Bytes → Option V) → ph.Conn → Call ph V
  receive unmarshal c h =
      let (r, rest) = read_message unmarshal (ph.pull c h.world) in
      (wire_error r, record h { world = ph.consumed c rest h.world })

  abbrev pub writer : ph.Conn → Writer
  writer c = record { State = ph.World; write = ph.write c }

  -- `mrcore.WriteMessage` on a connection.
  unfoldable pub send : RecoverResponse → ph.Conn → Call ph (Unit {0})
  send v c h =
      let (r, w) = write_message ph.response_to (writer c) v h.world in
      (wire_error r, record h { world = w })

  unfoldable pub close_locked : HostOf ph → HostOf ph
  close_locked h = elim h.session.conn [
    | none ↦ h
    | some c ↦ record { session = record h.session { conn = none }; world = ph.close c h.world }
  ]

  -- A failure that closes the connection.
  unfoldable pub or_close : {A : Type 0} → (Error → Error) → Call ph A → Call ph A
  unfolding close_locked
  or_close f m h =
      let (r, h') = m h in elim r [ ok a ↦ (ok a, h') | err e ↦ (err (f e), close_locked h') ]

  -- The deferred `failure.record`.
  unfoldable pub recorded : {A : Type 0} → Call ph A → Call ph A
  recorded m h =
      let (r, h') = m h in (r, record h' { session = record h'.session { failure = kind_of r } })

  abbrev pub renamed : {A : Type 0} → (Error → Error) → Call ph A → Call ph A
  renamed f m h = let (r, h') = m h in (map_err f r, h')
