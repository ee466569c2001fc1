-- ===== src/Setup/Examples.antt =====
-- The theorem on the set-up of a service at two routes, whose handlers are numbers.
use bmw.Base.{
  ==-refl, Bool, Bool-cases, List, Map, String, [], arith, contains, eq_of_==, false, if◌then◌else◌,
  inl, inr, keys, lookup, nat_eq, none, refl, some, string_eq, subst, sym, true, ℕ, ◌==◌, ◌∙◌, ◌∷◌,
  ◌≡◌,
}
use bmw.Setup.Build.{new_multi_bmw, new_single_bmw, new_worker, run_all, start}
use bmw.Setup.Started.{Compatible, Routing, Serves, built, clashes, route_paths, start-Serves}
use bmw.Setup.Types.{
  Engine, HandlerRoute, MultiHandlerRoutes, Started, go_channel_config, other_config,
}

abbrev two_routes : MultiHandlerRoutes ℕ
two_routes = record {
  host = ":8080";
  routes =
      record { path = "push"; topic = "default"; handler = 7 }
      ∷ record { path = "rsync"; topic = "default"; handler = 8 }
      ∷ [];
}

abbrev digit : ℕ → String
digit n = if n == 0 then "0" else "1"

-- An engine that joins nothing and has no wildcards: it refuses a path that it has.
abbrev test_engine : Engine
test_engine = record {
  Table = Map String ℕ;
  new_engine = [];
  post = λ path queue t. if contains (keys t) path then none else some ((path, queue) ∷ t);
  path_list = λ t. keys t;
  queue_of = λ path t. lookup path t;
}

abbrev same_path : String → String → Bool
same_path path old = old == path

clashes-same_path :
    (path : String) (olds : List String) → clashes same_path path olds ≡ contains olds path
clashes-same_path path [] = refl
clashes-same_path path (old ∷ olds) = ground (arith, clashes-same_path path olds)

others_stay :
    (path old : String) (queue : ℕ) (t : Map String ℕ)
    → contains (keys t) path ≡ false
    → contains (keys t) old ≡ true
    → lookup old ((path, queue) ∷ t) ≡ lookup old t
unfolding lookup
others_stay path old queue t new there = elim (Bool-cases (old == path)) [
  | inl e ↦
      let same : old ≡ path = eq_of_== old path e in
      absurd (ground (arith, new, subst (λ k. contains (keys t) k ≡ true) same there))
  | inr ne ↦ rw (ne) refl
]

abbrev test_rules : Routing test_engine
unfolding keys lookup
test_rules = record {
  valid = λ path. true;
  clash = same_path;
  empty = refl;
  added = λ path queue t good new.
      let absent : contains (keys t) path ≡ false = sym (clashes-same_path path (keys t)) ∙ new in
      (
        (path, queue) ∷ t,
        (
          rw (absent) refl,
          (refl, (rw (==-refl path) refl, λ old there. others_stay path old queue t absent there)),
        ),
      );
}

two_routes-Compatible : Compatible test_rules [] (route_paths (two_routes.routes))
unfolding test_rules string_eq
two_routes-Compatible = (refl, (refl, (refl, (refl, tt))))

start-Serves_example :
    (started : Started ℕ test_engine.Table) × ((start 2 digit test_engine (built 2 digit two_routes)
        ≡ some started)
      × ((started.workers ≡ run_all 2 digit (built 2 digit two_routes).dispatchers)
          × Serves 2 digit test_engine two_routes started))
start-Serves_example = start-Serves 2 digit test_engine test_rules two_routes two_routes-Compatible

-- Any other configuration leaves no api to start.
other_config_run : start 2 digit test_engine (new_multi_bmw 2 digit other_config two_routes) ≡ none
unfolding start new_multi_bmw
other_config_run = refl

abbrev single : HandlerRoute ℕ
single = record { host = ":1"; path = "p"; topic = "t"; handler = 5 }

-- The workers of a single route: their names, the handler and the least concurrency.
single_workers :
    run_all 2 digit (new_single_bmw 2 digit go_channel_config single).dispatchers
    ≡ record { id = "NO_0"; handler = 5; rate_limit = 10 }
      ∷ record { id = "NO_1"; handler = 5; rate_limit = 10 }
      ∷ []
unfolding run_all new_single_bmw new_worker nat_eq
single_workers = refl
