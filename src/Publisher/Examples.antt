-- ===== src/Publisher/Examples.antt =====
-- The theorem on the publisher at a registry that answers with a counter, and what an error does.
use bmw.Base.{
  List, [], arith, false, nat_eq, none, refl, some, string_eq, suc, true, ℕ, ◌+◌, ◌<◌, ◌∷◌, ◌≡◌,
  ◌≤◌, ◌⊎◌,
}
use bmw.Publisher.Quiet.{NoneStarts, refreshes, settled, unregister-stops}
use bmw.Publisher.Server.{new_service, run, stop, unregister_end}
use bmw.Publisher.Types.{
  Client, EtcdPublisher, Input, State, blocked, register_call, set_call, stop_call, tick,
  unregister_call,
}

abbrev registry : Client
registry = record {
  World = ℕ;
  json = λ id name host. host;
  set = λ path value options n. (suc n, some (suc n));
  delete = λ path index n. (suc n, some (suc n));
}

abbrev publisher : EtcdPublisher
publisher = record { prefix = "being/workers"; ttl = 10 }

-- Unregister has deleted the key, and a Heartbeat is behind its select.
abbrev deleted_service : State registry
deleted_service = record {
  world = 4;
  service = record { id = "1"; name = "push"; host = "host"; last_index = 4; quit = 0 };
  beating = 0;
  setting = 1;
  to_stop = 1;
  stopping = 0;
  crashed = false;
  trace = [];
}

abbrev after : List Input
after = set_call ∷ register_call ∷ tick ∷ unregister_call ∷ stop_call ∷ []

after-NoneStarts : NoneStarts registry publisher after
after-NoneStarts = (λ p. cc, (λ p. cc, (λ p. cc, (λ p. cc, (λ p. cc, tt)))))

abbrev stopped_service : State registry
stopped_service = (unregister_end registry publisher deleted_service).0

unregister-stops_example :
    let s' = run registry publisher after stopped_service in
    (refreshes s'.trace ≤ 1)
    × (((s'.crashed ≡ false) ⊎ (0 < 1))
        × ((settled registry publisher s').beating + (settled registry publisher s').setting ≡ 0))
unfolding refreshes unregister_end stop nat_eq
unregister-stops_example =
    unregister-stops registry publisher after deleted_service (omega arith) (omega arith) refl refl
      after-NoneStarts

abbrev offline : Client
offline = record {
  World = ℕ;
  json = λ id name host. host;
  set = λ path value options n. (n, none);
  delete = λ path index n. (n, none);
}

offline_service : State offline
offline_service = record {
  world = 0;
  service = new_service "1" "push" "host";
  beating = 1;
  setting = 0;
  to_stop = 0;
  stopping = 0;
  crashed = false;
  trace = [];
}

-- A refresh that etcd answers with an error reads the response that is not there.
offline_tick : (run offline publisher (tick ∷ set_call ∷ []) offline_service).crashed ≡ true
unfolding run offline_service new_service nat_eq
offline_tick = refl

-- A second Stop before the next tick blocks.
twice_blocks : (unregister_end registry publisher stopped_service).1 ≡ blocked
unfolding unregister_end nat_eq
twice_blocks = refl

-- A refresh in flight comes after the Stop.
late_refresh : refreshes (run registry publisher (set_call ∷ []) stopped_service).trace ≡ 1
unfolding run unregister_end nat_eq refreshes
late_refresh = refl
