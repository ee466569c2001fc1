-- ===== src/Publisher/Types.antt =====
-- The data of publisher/etcd.go and service.go. The client of etcd is an argument: an error comes without
-- a response, and a response has its index.
use bmw.Base.{Bool, List, Option, String, nat_eq, string_eq, ℕ}

pub record Service : Type 0 where
  pub id : String
  pub name : String
  pub host : String
  pub last_index : ℕ
  -- How many values the channel `quit` holds; it has room for one.
  pub quit : ℕ

-- The options of a `Set`.
pub record SetOptions : Type 0 where
  pub ttl : ℕ
  pub prev_index : ℕ
  pub refresh : Bool

pub record Client : Type 1 where
  pub World : Type 0
  -- The name and the host of a service as JSON.
  pub json : String → String → String → String
  pub set : String → String → SetOptions → World → World × Option ℕ
  -- `Delete` with a `PrevIndex`.
  pub delete : String → ℕ → World → World × Option ℕ

pub record EtcdPublisher : Type 0 where
  pub prefix : String
  pub ttl : ℕ

-- What is sent to etcd.
pub data Event : Type 0 where
  was_set : String → SetOptions → Event
  deleted : String → ℕ → Event

-- How a call ends: without an error, with one, or not before somebody reads `quit`.
pub data Call : Type 0 where
  done refused blocked : Call

module _ (c : Client) where
  pub record State : Type 0 where
    pub world : c.World
    pub service : Service
    -- The running calls of `Heartbeat` that wait for a tick, those of them that have found `quit` empty and are
    -- about to call `Set`, the calls of `Unregister` that are about to call `Stop`, and those of `Stop` that
    -- are blocked.
    pub beating : ℕ
    pub setting : ℕ
    pub to_stop : ℕ
    pub stopping : ℕ
    -- A nil response was read.
    pub crashed : Bool
    pub trace : List Event

pub data Input : Type 0 where
  register_call unregister_call stop_call heartbeat_call tick set_call : Input
