-- ===== src/World.antt =====
-- What the server takes from elsewhere: the parameters of the model.
use dendri_server.Common.{ℕ, Bool, Option, List, Text}
use dendri_server.Enums.{Message}
use dendri_server.RateLimiter.{Governor}
use dendri_server.Tenant.{Tenant}

-- The commands that the server sends to Redis.
pub data Command : Type 0 where
  hset : Text → Text → Text → Command
  hget : Text → Text → Command
  sadd srem sismember set rpush : Text → Text → Command
  smembers del get lrange keys : Text → Command
  mget : List Text → Command
  expire : Text → ℕ → Command
  -- `SET key value EX seconds NX`
  set_ex_nx : Text → Text → ℕ → Command

pub data Reply : Type 0 where
  done nil : Reply
  flag : Bool → Reply
  text : Text → Reply
  texts : List Text → Reply
  maybe_texts : List (Option Text) → Reply

-- A connection to Redis. A pipeline of commands gives the reply to its last command, or an error,
-- after which any part of it may have been carried out.
pub record Redis : Type 1 where
  pub Conn : Type 0
  pub query : List Command → Conn → Conn × Option Reply

-- `serde_json`: messages and lists of texts as JSON, and the reads of a `Value`.
pub record Json : Type 1 where
  pub Value : Type 0
  pub get : Value → Text → Option Value
  pub as_array : Value → Option (List Value)
  pub as_str : Value → Option Text
  pub message_to_json : Message → Text
  pub message_from_json : Text → Option Message
  pub message_from_value : Value → Option Message
  pub list_to_json : List Text → Text
  pub tenant_to_json : Tenant → Text
  pub tenant_from_json : Text → Option Tenant

pub record World : Type 1 where
  pub redis : Redis
  pub json : Json
  pub governor : Governor
  -- `subtle`
  pub ct_eq : Text → Text → Bool
  -- `sha2`: the bytes of the digest.
  pub sha256 : Text → List ℕ
  -- `jsonwebtoken::decode` pinned to HS256 with a mandatory `exp`: secret, token, time in seconds.
  pub decode_jwt : Text → Text → ℕ → Option json.Value

-- The two clocks, in milliseconds: the system's, and the monotonic one of `Instant`.
pub record Clock : Type 0 where
  pub wall : ℕ
  pub instant : ℕ
