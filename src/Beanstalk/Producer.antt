-- ===== src/Beanstalk/Producer.antt =====
-- `BeanstalkProducerPusher` of queue/beanstalk.go. `Wait` is called by one goroutine, and `Push` by any.
use bmw.Base.{
  Bool, List, Option, String, [], false, if◌then◌else◌, nat_eq, none, some, string_eq, true, ℕ,
  ◌++◌, ◌∷◌,
}
use bmw.Beanstalk.Types.{Client, Reserved, eof, job, other_error}

-- What happens next: a call of `Push`, or the next part of the calls of `Wait`.
pub data Turn : Type 0 where
  pushes : String → Turn
  waits : Turn

module _ (o : Client) where
  -- The producer, whether its `Wait` is in the loop of `newBeanstalkConn`, what its calls of `Wait` have
  -- returned, and the data of the calls of `Push`, each with whether it was put without an error.
  pub record Producer : Type 0 where
    pub world : o.World
    pub conn : ℕ
    pub pusher_conn : ℕ
    pub dialling : Bool
    pub answers : List (Option String)
    pub pushed : List (String × Bool)

  -- `NewBeanstalkProducerPusher` behind its two connections.
  unfoldable pub new_producer_pusher : String → ℕ → ℕ → o.World → Producer
  new_producer_pusher tube conn pusher_conn w = record {
    world = (o.use_tube pusher_conn tube (o.watch conn tube w).0).0;
    conn = conn;
    pusher_conn = pusher_conn;
    dialling = false;
    answers = [];
    pushed = [];
  }

  abbrev pub answer : Option String → Producer → Producer
  answer b p = record p { answers = p.answers ++ b ∷ [] }

  -- `Wait` behind `Reserve`. After an error other than EOF the nil job makes it panic, which it recovers
  -- from.
  unfoldable pub on_reserved : Reserved → Producer → Producer
  on_reserved (job id body) p =
      answer (some body) (record p { world = (o.delete p.conn id p.world).0 })
  on_reserved eof p = record p { dialling = true }
  on_reserved other_error p = answer none p

  -- `Wait` up to its end, or to `newBeanstalkConn`.
  unfoldable pub wait : Producer → Producer
  unfolding on_reserved
  wait p = let (w, r) = o.reserve p.conn p.world in on_reserved r (record p { world = w })

  -- The new connection, and the panic with EOF that `Wait` recovers from.
  unfoldable pub dialled : Option ℕ → Producer → Producer
  dialled none p = p
  dialled (some conn) p = answer none (record p { conn = conn; dialling = false })

  -- A call of `newBeanstalkConn`, which calls itself again after an error.
  unfoldable pub new_beanstalk_conn : Producer → Producer
  unfolding dialled
  new_beanstalk_conn p = let (w, conn) = o.dial p.world in dialled conn (record p { world = w })

  -- `Push`
  unfoldable pub push : String → Producer → Producer
  push body p =
      let (w, done) = o.put p.pusher_conn body p.world in
      record p { world = w; pushed = p.pushed ++ (body, done) ∷ [] }

  unfoldable pub turn : Turn → Producer → Producer
  unfolding push wait new_beanstalk_conn
  turn (pushes body) p = push body p
  turn waits p = if p.dialling then new_beanstalk_conn p else wait p

  unfoldable pub run : List Turn → Producer → Producer
  unfolding turn
  run [] p = p
  run (t ∷ ts) p = run ts (turn t p)
