-- ===== src/Setup/Started.antt =====
-- A service that starts: the paths of its engine.
use bmw.Base.{
  ==-refl, Bool, List, String, [], ap, append-nil, append_assoc, arith, contains, false, get_elem?,
  length, nat_eq, none, refl, some, string_eq, subst, suc, sym, true, zero, ℕ, ◌++◌, ◌==◌, ◌||◌,
  ◌∙◌, ◌∷◌, ◌≡◌,
}
use bmw.Pipeline.Pool.{started}
use bmw.Setup.Build.{new_dispatcher, new_multi_bmw, register_all, run_all, start, wire, wire_all}
use bmw.Setup.Routes.{Wired, wire_all-Wired}
use bmw.Setup.Types.{
  Engine, MultiBmw, MultiHandlerRoutes, RouteConfig, SingleRoute, Started, Wiring,
  go_channel_config,
}

abbrev pub paths : List RouteConfig → List String
paths [] = []
paths (c ∷ cs) = c.path ∷ paths cs

abbrev pub route_paths : {Handler : Type 0} → List (SingleRoute Handler) → List String
route_paths [] = []
route_paths (r ∷ rs) = r.path ∷ route_paths rs

paths-append : (cs ds : List RouteConfig) → paths (cs ++ ds) ≡ paths cs ++ paths ds
paths-append [] ds = refl
paths-append (c ∷ cs) ds = rw (paths-append cs ds) refl

get_elem?-paths :
    (cs : List RouteConfig) (i : ℕ) (c : RouteConfig)
    → get_elem? cs i ≡ some c
    → contains (paths cs) c.path ≡ true
get_elem?-paths [] i c h = cc
get_elem?-paths (d ∷ cs) zero c h =
    let same : d ≡ c = cc in
    subst (λ e. (d.path == e.path || contains (paths cs) e.path) ≡ true) same
      (rw (==-refl d.path) refl)
get_elem?-paths (d ∷ cs) (suc i) c h = ground (arith, get_elem?-paths cs i c h)

-- Whether a new path is refused beside one of some others.
abbrev pub clashes : (String → String → Bool) → String → List String → Bool
clashes clash path [] = false
clashes clash path (old ∷ olds) = clash path old || clashes clash path olds

-- What gin says of its routes. `valid` is whether a path can stand alone, and `clash` whether a new one is refused
-- beside an old one, as where both join to the same path or their wildcards conflict. Any other path is
-- added, and leaves the others as they are.
pub record Routing (o : Engine) : Type 0 where
  pub valid : String → Bool
  pub clash : String → String → Bool
  pub empty : o.path_list o.new_engine ≡ []
  pub added :
      (path : String) (queue : ℕ) (t : o.Table)
      → valid path ≡ true
      → clashes clash path (o.path_list t) ≡ false
      → (t' : o.Table) × ((o.post path queue t ≡ some t')
          × ((o.path_list t' ≡ path ∷ o.path_list t)
              × ((o.queue_of path t' ≡ some queue)
                  × ((old : String)
                      → contains (o.path_list t) old ≡ true
                      → o.queue_of old t' ≡ o.queue_of old t))))

-- Paths that can be added one after another to some that are there.
abbrev pub Compatible : {o : Engine} → Routing o → List String → List String → Type 0
Compatible r olds [] = Unit
Compatible r olds (path ∷ rest) =
    (r.valid path ≡ true) × ((clashes r.clash path olds ≡ false) × Compatible r (path ∷ olds) rest)

module _ (o : Engine) (rules : Routing o) where
  -- What `StartServe` leaves in the engine.
  abbrev Registered : List RouteConfig → o.Table → o.Table → Type 0
  Registered cs t t' =
      (register_all o cs t ≡ some t')
      × (((old : String)
            → contains (o.path_list t) old ≡ true
            → o.queue_of old t' ≡ o.queue_of old t)
          × ((i : ℕ) (c : RouteConfig)
              → get_elem? cs i ≡ some c
              → o.queue_of c.path t' ≡ some c.pusher))

  register_all-Registered :
      (cs : List RouteConfig) (t : o.Table)
      → Compatible rules (o.path_list t) (paths cs)
      → (t' : o.Table) × Registered cs t t'
  unfolding register_all
  register_all-Registered [] t h = (t, (refl, (λ old there. refl, λ i c e. cc)))
  register_all-Registered (c ∷ cs) t h =
      let (t₁, (e, (names, (mine, kept)))) = rules.added c.path c.pusher t h.0 h.1.0 in
      let rest =
        register_all-Registered cs t₁
          (subst (λ l. Compatible rules l (paths cs)) (sym names) h.1.1) in
      let here : contains (o.path_list t₁) c.path ≡ true = rw (names, ==-refl c.path) refl in
      (
        rest.0,
        (
          rw (e, register_all) (rest.1.0),
          (
            λ old there. rest.1.1.0 old (rw (names) (ground (arith, there))) ∙ kept old there,
            λ i d at. found i d at rest.0 (rest.1.1.0 c.path here ∙ mine) (rest.1.1.1),
          ),
        ),
      )
    where
      found :
          (i : ℕ) (d : RouteConfig)
          → get_elem? (c ∷ cs) i ≡ some d
          → (t' : o.Table) → o.queue_of c.path t' ≡ some c.pusher
          → ((j : ℕ) (f : RouteConfig)
              → get_elem? cs j ≡ some f
              → o.queue_of f.path t' ≡ some f.pusher)
          → o.queue_of d.path t' ≡ some d.pusher
      found zero d at t' mine later =
          let same : c ≡ d = cc in subst (λ f. o.queue_of f.path t' ≡ some f.pusher) same mine
      found (suc i) d at t' mine later = later i d at

module _ {Handler : Type 0} (cpu_num : ℕ) (show : ℕ → String) where
  wire_all-paths :
      (items : List (SingleRoute Handler)) (w : Wiring Handler)
      → paths (wire_all cpu_num show items w).configs ≡ paths w.configs ++ route_paths items
  unfolding wire_all wire
  wire_all-paths [] w = sym (append-nil (paths w.configs))
  wire_all-paths (item ∷ items) w =
      let c : RouteConfig = record { path = item.path; pusher = length w.queues } in
      wire_all-paths items (wire cpu_num show item w)
      ∙ ap (λ ps. ps ++ route_paths items) (paths-append w.configs (c ∷ []))
      ∙ append_assoc (paths w.configs) (item.path ∷ []) (route_paths items)

  abbrev pub built : MultiHandlerRoutes Handler → MultiBmw Handler
  built = new_multi_bmw cpu_num show go_channel_config

  -- The parts of a route in a service that runs.
  abbrev pub Serves : (o : Engine) → MultiHandlerRoutes Handler → Started Handler o.Table → Type 0
  Serves o routes started =
      (i : ℕ) (route : SingleRoute Handler)
      → get_elem? routes.routes i ≡ some route
      → (o.queue_of route.path started.posts ≡ some i)
        × ((get_elem? (built routes).queues i ≡ some 1000)
            × (get_elem? (built routes).dispatchers i
                ≡ some (new_dispatcher cpu_num show route.handler i none)))

  pub start-Serves :
      (o : Engine) (rules : Routing o) (routes : MultiHandlerRoutes Handler)
      → Compatible rules [] (route_paths routes.routes)
      → (started : Started Handler o.Table) × ((start cpu_num show o (built routes) ≡ some started)
          × ((started.workers ≡ run_all cpu_num show (built routes).dispatchers)
              × Serves o routes started))
  unfolding start new_multi_bmw
  start-Serves o rules routes d =
      let empty : Wiring Handler = record { queues = []; dispatchers = []; configs = [] } in
      let w = wire_all cpu_num show routes.routes empty in
      let names : paths w.configs ≡ route_paths routes.routes =
        wire_all-paths routes.routes empty in
      let r = register_all-Registered o rules w.configs o.new_engine (
        subst (λ l. Compatible rules l (paths w.configs)) (sym rules.empty)
          (subst (Compatible rules []) (sym names) d)) in
      let serves : Serves o routes
          (record { workers = run_all cpu_num show w.dispatchers; posts = r.0 }) =
        λ i route h.
          let wired : Wired cpu_num show i route w =
            subst (λ k. Wired cpu_num show k route w) (omega arith)
              (wire_all-Wired cpu_num show 0 i routes.routes route empty (refl, (refl, refl)) h) in
          (r.1.1.1 i (record { path = route.path; pusher = i }) wired.1.1, (wired.0, wired.1.0)) in
      (
        record { workers = run_all cpu_num show w.dispatchers; posts = r.0 },
        (rw (r.1.0, start) refl, (refl, serves)),
      )
