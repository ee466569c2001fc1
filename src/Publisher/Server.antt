-- ===== src/Publisher/Server.antt =====
-- The methods of EtcdPublisher and of Service.
-- `NewService`
use bmw.Base.{
  List, Option, String, [], false, if◌then◌else◌, nat_eq, none, some, string_eq, suc, true, ℕ, ◌++◌,
  ◌-◌, ◌<>◌, ◌==◌, ◌∷◌,
}
use bmw.Publisher.Types.{
  Call, Client, EtcdPublisher, Input, Service, SetOptions, State, blocked, deleted, done,
  heartbeat_call, refused, register_call, set_call, stop_call, tick, unregister_call, was_set,
}

unfoldable pub new_service : String → String → String → Service
new_service id name host = record { id = id; name = name; host = host; last_index = 0; quit = 0 }

-- The prefix that `NewEtcdPublisherWithPrefix` sets.
unfoldable pub new_etcd_publisher : String → ℕ → EtcdPublisher
new_etcd_publisher prefix ttl = record {
  prefix = if prefix == "" then "being/workers" else prefix;
  ttl = ttl;
}

module _ (c : Client) (ep : EtcdPublisher) where
  unfoldable pub get_full_path : Service → String
  get_full_path s = ep.prefix <> ("/" <> (s.name <> ("/" <> s.id)))

  abbrev pub set_index : ℕ → State c → State c
  set_index n s = record s { service = record s.service { last_index = n } }

  -- `Stop`, which sends on `quit`.
  unfoldable pub stop : State c → State c × Call
  stop s =
      if s.service.quit == 0
      then (record s { service = record s.service { quit = 1 } }, done)
      else (record s { stopping = suc s.stopping }, blocked)

  -- `Kapi.Set` of the service.
  unfoldable pub set_service : SetOptions → State c → State c × Option ℕ
  unfolding get_full_path
  set_service options s =
      let path = get_full_path s.service in
      let value = c.json s.service.id s.service.name s.service.host in
      let (w, answer) = c.set path value options s.world in
      (record s { world = w; trace = s.trace ++ was_set path options ∷ [] }, answer)

  unfoldable pub registered : State c × Option ℕ → State c × Call
  registered (s, none) = (s, refused)
  registered (s, some index) = (set_index index s, done)

  unfoldable pub register : State c → State c × Call
  unfolding set_service registered
  register s =
      registered (
        set_service (record { ttl = ep.ttl; prev_index = s.service.last_index; refresh = false }) s)

  unfoldable pub unregistered : State c × Option ℕ → State c × Call
  unregistered (s, none) = (s, refused)
  unregistered (s, some index) = (record (set_index index s) { to_stop = suc s.to_stop }, done)

  unfoldable pub delete_service : State c → State c × Option ℕ
  unfolding get_full_path
  delete_service s =
      let path = get_full_path s.service in
      let (w, answer) = c.delete path s.service.last_index s.world in
      (record s { world = w; trace = s.trace ++ deleted path s.service.last_index ∷ [] }, answer)

  -- `Unregister` up to its error, or to its call of `Stop`.
  unfoldable pub unregister : State c → State c × Call
  unfolding delete_service unregistered
  unregister s = unregistered (delete_service s)

  -- A receive from `quit`, which lets a blocked `Stop` send.
  unfoldable pub receive : State c → State c
  receive s =
      if s.stopping == 0
      then record s { service = record s.service { quit = s.service.quit - 1 } }
      else record s { stopping = s.stopping - 1 }

  -- The end of `Unregister`.
  unfoldable pub unregister_end : State c → State c × Call
  unfolding stop
  unregister_end s = stop (record s { to_stop = s.to_stop - 1 })

  unfoldable pub refreshed : State c × Option ℕ → State c
  refreshed (s, none) = record s { crashed = true }
  refreshed (s, some index) =
      let waits = record s { beating = suc s.beating } in
      if index == 0 then waits else set_index index waits

  -- One tick of one `Heartbeat`: the select.
  unfoldable pub heartbeat : State c → State c
  unfolding receive
  heartbeat s =
      if s.service.quit == 0
      then record s { beating = s.beating - 1; setting = suc s.setting }
      else record (receive s) { beating = s.beating - 1 }

  -- Its `Set`.
  unfoldable pub heartbeat_set : State c → State c
  unfolding set_service refreshed
  heartbeat_set s = refreshed (
      set_service (record { ttl = ep.ttl; prev_index = 0; refresh = true })
        (record s { setting = s.setting - 1 }))

  unfoldable pub next : Input → State c → State c
  unfolding register unregister unregister_end heartbeat heartbeat_set
  next register_call s = (register s).0
  next unregister_call s = (unregister s).0
  next stop_call s = if s.to_stop == 0 then s else (unregister_end s).0
  next heartbeat_call s = record s { beating = suc s.beating }
  next tick s = if s.beating == 0 then s else heartbeat s
  next set_call s = if s.setting == 0 then s else heartbeat_set s

  -- Calls and ticks in any order, up to a crash.
  unfoldable pub run : List Input → State c → State c
  unfolding next
  run [] s = s
  run (i ∷ is) s = let rest = run is (next i s) in if s.crashed then s else rest
