-- ===== src/Agent/Session.antt =====
-- agent/session.go: the payload that starts a ceremony, the live sessions, and how a session ends.
pub mod Payload
pub mod Life
use clawdwallet.Base.{◌≡◌, String, Option, none, some, List, [], ◌∷◌, Error, if◌then◌else◌, str_eq}
use clawdwallet.Base.Maps.{Map, lookup, insert, erase}
use clawdwallet.Base.Machine.{ℤ}
use clawdwallet.Agent.Party.{PeerSpec, PartyId}
use clawdwallet.Agent.Protocol.{curve_ed25519}

abbrev pub session_keygen : String
session_keygen = "keygen"

abbrev pub session_sign : String
session_sign = "txsign"

abbrev pub session_reshare : String
session_reshare = "reshare"

pub record InitPayload : Type 0 where
  pub kind : String
  pub sid : String
  pub curve : String
  pub protocol : String
  pub peers : List PeerSpec
  pub threshold : ℤ
  pub digest : String
  pub wallet_id : String
  pub new_peers : List PeerSpec
  pub new_threshold : ℤ

-- The local `raw` of `UnmarshalJSON`; `type` is a word of the language. A missing field is empty.
pub record RawPayload : Type 0 where
  pub kind : String
  pub type_field : String
  pub sid : String
  pub curve : String
  pub protocol : String
  pub peers : List PeerSpec
  pub threshold : ℤ
  pub digest : String
  pub message : String
  pub wallet_id : String
  pub new_peers : List PeerSpec
  pub new_threshold : ℤ

-- `if s == "" { s = d }`
abbrev pub or_else : String → String → String
or_else s d = if str_eq s "" then d else s

-- The older value "sign" stands for "txsign".
abbrev pub sign_alias : String → String
sign_alias k = if str_eq k "sign" then session_sign else k

-- The rest of `UnmarshalJSON`, once the JSON is decoded.
unfoldable pub unmarshal_payload : RawPayload → InitPayload
unmarshal_payload r = record {
  kind = sign_alias (or_else r.type_field r.kind);
  sid = r.sid;
  curve = or_else r.curve curve_ed25519;
  protocol = r.protocol;
  peers = r.peers;
  threshold = r.threshold;
  digest = or_else r.digest r.message;
  wallet_id = r.wallet_id;
  new_peers = r.new_peers;
  new_threshold = r.new_threshold;
}

-- What `json.Marshal` of a payload is decoded to again: `kind` is written as `type`.
unfoldable pub marshal_payload : InitPayload → RawPayload
marshal_payload p = record {
  kind = "";
  type_field = p.kind;
  sid = p.sid;
  curve = p.curve;
  protocol = p.protocol;
  peers = p.peers;
  threshold = p.threshold;
  digest = p.digest;
  message = "";
  wallet_id = p.wallet_id;
  new_peers = p.new_peers;
  new_threshold = p.new_threshold;
}

-- `err` and the closed `doneCh` of a session: `none` while the ceremony runs.
pub record Session : Type 0 where
  pub id : String
  pub kind : String
  pub peers : List PeerSpec
  pub self : PartyId
  pub finished : Option (Option Error)

-- `once` lets the first call through.
abbrev finish_once : Option (Option Error) → Option Error → Option (Option Error)
finish_once none e = some e
finish_once (some d) e = some d

unfoldable pub finish : Session → Option Error → Session
finish s e = record s { finished = finish_once s.finished e }

-- What the `select` of `Wait` may return: the session's error if it is finished, the context's if that
-- is done. With both ready Go picks either.
pub data Waits (s : Session) (ctx : Option Error) : Option Error → Type 0 where
  by_session : {e : Option Error} → s.finished ≡ some e → Waits s ctx e
  by_context : {e : Error} → ctx ≡ some e → Waits s ctx (some e)

-- The registry of live sessions: a map under a mutex.
abbrev pub Sessions : Type 0
Sessions = Map Session

unfoldable pub get : String → Sessions → Option Session
get sid r = lookup sid r

unfoldable pub put : Session → Sessions → Sessions
put s r = insert s.id s r

unfoldable pub drop : String → Sessions → Sessions
drop sid r = erase sid r
