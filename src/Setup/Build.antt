-- ===== src/Setup/Build.antt =====
-- NewMultiBMW, NewSingleBMW and Start. The number of processors and `fmt.Sprintf` of a number are
-- arguments.
use bmw.Base.{
  List, Option, String, [], if◌then◌else◌, length, ltb, nat_eq, none, or_zero, some, string_eq, suc,
  zero, ℕ, ◌++◌, ◌<>◌, ◌∷◌,
}
use bmw.Pipeline.Types.{min_buf}
use bmw.Setup.Types.{
  Dispatcher, DispatcherConfig, Engine, HandlerRoute, MultiBmw, MultiHandlerRoutes, QueueConfig,
  RouteConfig, SingleRoute, Started, Wiring, Worker, go_channel_config, other_config,
}

abbrev pub min_concurrency : ℕ
min_concurrency = 10

-- The capacity of `NewGoChannelPusherWaiter`.
unfoldable pub new_go_channel : ℕ → ℕ
new_go_channel buf = if ltb buf min_buf then min_buf else buf

abbrev pub default_dispatcher_config : ℕ → DispatcherConfig
default_dispatcher_config cpu_num = record { max_workers = cpu_num; worker_rate = 10 }

-- The loop of `StartServe`, up to a panic of the engine.
unfoldable pub register_all : (o : Engine) → List RouteConfig → o.Table → Option o.Table
register_all o [] posts = some posts
register_all o (c ∷ cs) posts = elim (o.post c.path c.pusher posts) [
  | none ↦ none
  | some posts' ↦ register_all o cs posts'
]

module _ {Handler : Type 0} (cpu_num : ℕ) (show : ℕ → String) where
  -- `NewDispatcher`; a nil configuration is `none`.
  unfoldable pub new_dispatcher : Handler → ℕ → Option DispatcherConfig → Dispatcher Handler
  new_dispatcher handler waiter config =
      let c = or_zero config (default_dispatcher_config cpu_num) in
      record {
        max_workers = c.max_workers;
        worker_rate = c.worker_rate;
        handler = handler;
        waiter = waiter;
      }

  -- One round of the loop of `initChanAsQueue`: a queue, its dispatcher and its route.
  unfoldable pub wire : SingleRoute Handler → Wiring Handler → Wiring Handler
  unfolding new_go_channel new_dispatcher
  wire item w =
      let pusher_waiter = length w.queues in
      record {
        queues = w.queues ++ new_go_channel 1000 ∷ [];
        dispatchers = w.dispatchers ++ new_dispatcher item.handler pusher_waiter none ∷ [];
        configs = w.configs ++ record { path = item.path; pusher = pusher_waiter } ∷ [];
      }

  unfoldable pub wire_all : List (SingleRoute Handler) → Wiring Handler → Wiring Handler
  unfolding wire
  wire_all [] w = w
  wire_all (item ∷ items) w = wire_all items (wire item w)

  unfoldable pub new_multi_bmw : QueueConfig → MultiHandlerRoutes Handler → MultiBmw Handler
  unfolding wire_all
  new_multi_bmw other_config routes = record { api = none; dispatchers = []; queues = [] }
  new_multi_bmw go_channel_config routes =
      let w = wire_all routes.routes (record { queues = []; dispatchers = []; configs = [] }) in
      record {
        api = some (record { host = routes.host; routes = w.configs });
        dispatchers = w.dispatchers;
        queues = w.queues;
      }

  unfoldable pub new_single_bmw : QueueConfig → HandlerRoute Handler → MultiBmw Handler
  unfolding new_multi_bmw
  new_single_bmw config route = new_multi_bmw config (record {
    host = route.host;
    routes = record { path = route.path; topic = route.topic; handler = route.handler } ∷ [];
  })

  -- `NewWorker`
  unfoldable pub new_worker : String → Handler → ℕ → Worker Handler
  new_worker id handler concurrency = record {
    id = id;
    handler = handler;
    rate_limit = if ltb concurrency min_concurrency then min_concurrency else concurrency;
  }

  -- `Run`: `todo` workers from number `i`.
  unfoldable pub run_workers : ℕ → ℕ → Dispatcher Handler → List (Worker Handler)
  unfolding new_worker
  run_workers zero i d = []
  run_workers (suc todo) i d =
      new_worker ("NO_" <> show i) d.handler d.worker_rate ∷ run_workers todo (suc i) d

  unfoldable pub run_all : List (Dispatcher Handler) → List (Worker Handler)
  unfolding run_workers
  run_all [] = []
  run_all (d ∷ ds) = run_workers d.max_workers 0 d ++ run_all ds

  -- `Start`, which panics where there is no api.
  unfoldable pub start : (o : Engine) → MultiBmw Handler → Option (Started Handler o.Table)
  unfolding run_all register_all
  start o b = elim b.api [
    | none ↦ none
    | some api ↦ elim (register_all o api.routes o.new_engine) [
      | none ↦ none
      | some posts ↦ some (record { workers = run_all b.dispatchers; posts = posts })
    ]
  ]
