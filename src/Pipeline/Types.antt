-- ===== src/Pipeline/Types.antt =====
-- `RetryJob` of api.go and what a handler answers.
use bmw.Base.{Bool, Option, String, nat_eq, string_eq, ℕ}

pub record RetryJob (Bytes : Type 0) : Type 0 where
  pub id : String
  pub retry : ℕ
  pub payload : Bytes

-- What `Handle` returns: nil, `RetryError`, or another error.
pub data Answer : Type 0 where
  done need_retry failed : Answer

-- `MaxRetry`.
abbrev pub max_retry : ℕ
max_retry = 3

-- `minBuf` of queue/go_chan.go.
abbrev pub min_buf : ℕ
min_buf = 1000

-- The JSON of a job. `unmarshal` answers the job that it leaves, and whether it reports an error.
-- `handle` is the handler of the route.
pub record Service : Type 1 where
  pub Bytes : Type 0
  pub World : Type 0
  pub marshal : RetryJob Bytes → Option Bytes
  pub unmarshal : Bytes → RetryJob Bytes × Bool
  pub handle : RetryJob Bytes → World → World × Answer
