-- ===== src/Enums.antt =====
-- src/enums.rs and src/models/message.rs: the message types, the protocol errors and the message.
pub mod Names
use dendri_server.Common.{ℕ, Option, Text, codes}
use dendri_server.Common.Int.{ℤ}

pub data MessageType : Type 0 where
  open_ leave candidate offer answer expire heartbeat id_taken error data_ ack : MessageType
  room_join room_leave room_peers presence_update : MessageType

-- The wire names, those of serde too.
unfoldable pub as_str : MessageType → Text
as_str MessageType.open_ = codes "OPEN"
as_str MessageType.leave = codes "LEAVE"
as_str MessageType.candidate = codes "CANDIDATE"
as_str MessageType.offer = codes "OFFER"
as_str MessageType.answer = codes "ANSWER"
as_str MessageType.expire = codes "EXPIRE"
as_str MessageType.heartbeat = codes "HEARTBEAT"
as_str MessageType.id_taken = codes "ID-TAKEN"
as_str MessageType.error = codes "ERROR"
as_str MessageType.data_ = codes "DATA"
as_str MessageType.ack = codes "ACK"
as_str MessageType.room_join = codes "ROOM-JOIN"
as_str MessageType.room_leave = codes "ROOM-LEAVE"
as_str MessageType.room_peers = codes "ROOM-PEERS"
as_str MessageType.presence_update = codes "PRESENCE-UPDATE"

pub data PeerError : Type 0 where
  invalid_key invalid_token invalid_ws_parameters connection_limit_exceed : PeerError

unfoldable pub error_str : PeerError → Text
error_str PeerError.invalid_key = codes "Invalid key provided"
error_str PeerError.invalid_token = codes "Invalid token provided"
error_str PeerError.invalid_ws_parameters =
    codes "No id, token, or key supplied to websocket server"
error_str PeerError.connection_limit_exceed = codes "Server has reached its concurrent user limit"

-- `payload` is the raw JSON text.
pub record Message : Type 0 where
  pub type_ : MessageType
  pub src : Option Text
  pub dst : Option Text
  pub payload : Option Text
  pub seq : Option ℕ
  pub room : Option Text
  pub timestamp : Option ℤ
  pub topic_class : Option Text
