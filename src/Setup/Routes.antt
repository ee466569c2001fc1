-- ===== src/Setup/Routes.antt =====
-- Each route of a service has a queue of its own, which its path fills and its dispatcher reads.
use bmw.Base.{
  List, String, [], ap, arith, get_elem?, get_elem?-append, get_elem?-append_left, length,
  length-append, nat_eq, none, some, string_eq, subst, suc, zero, ℕ, ◌++◌, ◌+◌, ◌∙◌, ◌∷◌, ◌≡◌,
}
use bmw.Setup.Build.{new_dispatcher, new_go_channel, wire, wire_all}
use bmw.Setup.Types.{SingleRoute, Wiring}

module _ {Handler : Type 0} (cpu_num : ℕ) (show : ℕ → String) where
  -- The parts of one route, by its number.
  abbrev pub Wired : ℕ → SingleRoute Handler → Wiring Handler → Type 0
  Wired i route w =
      (get_elem? w.queues i ≡ some 1000)
      × ((get_elem? w.dispatchers i ≡ some (new_dispatcher cpu_num show route.handler i none))
          × (get_elem? w.configs i ≡ some (record { path = route.path; pusher = i })))

  abbrev Even : ℕ → Wiring Handler → Type 0
  Even n w = (length w.queues ≡ n) × ((length w.dispatchers ≡ n) × (length w.configs ≡ n))

  wire-Even :
      (n : ℕ) (item : SingleRoute Handler) (w : Wiring Handler)
      → Even n w
      → Even (suc n) (wire cpu_num show item w)
  unfolding wire
  wire-Even n item w (q, (d, c)) = (
    omega (arith, length-append w.queues (1000 ∷ []), q),
    (
      omega (
        arith,
        d,
        length-append w.dispatchers
            (new_dispatcher cpu_num show item.handler (length w.queues) none ∷ []),
      ),
      omega (
        arith,
        c,
        length-append w.configs (record { path = item.path; pusher = length w.queues } ∷ []),
      ),
    ),
  )

  wire-keeps :
      (items : List (SingleRoute Handler)) (i : ℕ) (route : SingleRoute Handler)
      (w : Wiring Handler)
      → Wired i route w
      → Wired i route (wire_all cpu_num show items w)
  unfolding wire_all wire
  wire-keeps [] i route w h = h
  wire-keeps (item ∷ items) i route w (q, (d, c)) =
      wire-keeps items i route (wire cpu_num show item w) (
        get_elem?-append_left w.queues _ i _ q,
        (get_elem?-append_left w.dispatchers _ i _ d, get_elem?-append_left w.configs _ i _ c),
      )

  wire-Wired :
      (n : ℕ) (item : SingleRoute Handler) (w : Wiring Handler)
      → Even n w
      → Wired n item (wire cpu_num show item w)
  unfolding wire new_go_channel
  wire-Wired n item w (q, (d, c)) = (
    subst (λ k. get_elem? (w.queues ++ 1000 ∷ []) k ≡ some 1000) q
        (get_elem?-append w.queues (1000 ∷ [])),
    (
      at_end w.dispatchers _ n d
          ∙ ap (λ k. some (new_dispatcher cpu_num show item.handler k none)) q,
      at_end w.configs _ n c ∙ ap (λ k. some (record { path = item.path; pusher = k })) q,
    ),
  )
    where
      at_end :
          {A : Type 0} (xs : List A) (x : A) (k : ℕ)
          → length xs ≡ k
          → get_elem? (xs ++ x ∷ []) k ≡ some x
      at_end xs x k h =
          subst (λ j. get_elem? (xs ++ x ∷ []) j ≡ some x) h (get_elem?-append xs (x ∷ []))

  pub wire_all-Wired :
      (n i : ℕ) (items : List (SingleRoute Handler)) (route : SingleRoute Handler)
      (w : Wiring Handler)
      → Even n w
      → get_elem? items i ≡ some route
      → Wired (i + n) route (wire_all cpu_num show items w)
  unfolding wire_all
  wire_all-Wired n i [] route w even h = cc
  wire_all-Wired n zero (item ∷ items) route w even h =
      let same : item ≡ route = cc in
      subst (λ k. Wired k route (wire_all cpu_num show items (wire cpu_num show item w)))
        (omega arith)
        (wire-keeps items n route (wire cpu_num show item w)
          (subst (λ r. Wired n r (wire cpu_num show item w)) same (wire-Wired n item w even)))
  wire_all-Wired n (suc i) (item ∷ items) route w even h =
      subst (λ k. Wired k route (wire_all cpu_num show items (wire cpu_num show item w)))
        (omega arith)
        (wire_all-Wired (suc n) i items route (wire cpu_num show item w) (wire-Even n item w even)
          h)
