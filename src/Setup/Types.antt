-- ===== src/Setup/Types.antt =====
-- The data of a service before it runs. A queue is known by its number; `Handler` is the type of handlers.
use bmw.Base.{List, Option, String, nat_eq, string_eq, ℕ}

module _ (Handler : Type 0) where
  pub record SingleRoute : Type 0 where
    pub path : String
    pub topic : String
    pub handler : Handler

  pub record MultiHandlerRoutes : Type 0 where
    pub host : String
    pub routes : List SingleRoute

  pub record HandlerRoute : Type 0 where
    pub host : String
    pub path : String
    pub topic : String
    pub handler : Handler

  pub record Dispatcher : Type 0 where
    pub max_workers : ℕ
    pub worker_rate : ℕ
    pub handler : Handler
    pub waiter : ℕ

  pub record Worker : Type 0 where
    pub id : String
    pub handler : Handler
    pub rate_limit : ℕ

pub record RouteConfig : Type 0 where
  pub path : String
  pub pusher : ℕ

pub record DispatcherConfig : Type 0 where
  pub max_workers : ℕ
  pub worker_rate : ℕ

pub record DefaultApi : Type 0 where
  pub host : String
  pub routes : List RouteConfig

-- The type of the configuration: GoChannelConfig or another one.
pub data QueueConfig : Type 0 where
  go_channel_config other_config : QueueConfig

module _ (Handler : Type 0) where
  -- The parts that `initChanAsQueue` makes: the capacities of the queues, the dispatchers and the routes.
  pub record Wiring : Type 0 where
    pub queues : List ℕ
    pub dispatchers : List (Dispatcher Handler)
    pub configs : List RouteConfig

  pub record MultiBmw : Type 0 where
    pub api : Option DefaultApi
    pub dispatchers : List (Dispatcher Handler)
    pub queues : List ℕ

  -- A service that runs: the workers, and what the engine has.
  pub record Started (Table : Type 0) : Type 0 where
    pub workers : List (Worker Handler)
    pub posts : Table

-- The engine of gin: `POST` of a path with the handler that fills a queue, where `none` is a panic; the paths
-- that it has; and the queue that the handler of one of them fills.
pub record Engine : Type 1 where
  pub Table : Type 0
  pub new_engine : Table
  pub post : String → ℕ → Table → Option Table
  pub path_list : Table → List String
  pub queue_of : String → Table → Option ℕ
