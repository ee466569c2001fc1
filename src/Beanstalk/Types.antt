-- ===== src/Beanstalk/Types.antt =====
-- What queue/beanstalk.go calls of the client of beanstalk, and what the protocol says of it.
use bmw.Base.{
  Bool, List, Option, String, [], contains, false, if◌then◌else◌, nat_eq, some, string_eq, true, ℕ,
  ◌++◌, ◌==◌, ◌∷◌, ◌≡◌, ◌⊎◌,
}

-- What `Reserve` gives: a job with its id and body, the error EOF, or another error.
pub data Reserved : Type 0 where
  job : ℕ → String → Reserved
  eof other_error : Reserved

-- Each connection has a number of its own. `false` is an error.
pub record Client : Type 1 where
  pub World : Type 0
  pub dial : World → World × Option ℕ
  pub watch : ℕ → String → World → World × Bool
  pub use_tube : ℕ → String → World → World × Bool
  pub reserve : ℕ → World → World × Reserved
  pub delete : ℕ → ℕ → World → World × Bool
  pub put : ℕ → String → World → World × Bool
  -- The tubes that a connection watches, the tube that it puts into, the bodies that are ready in a tube, the
  -- first one first, and whether no job is reserved.
  pub watched : ℕ → World → List String
  pub used : ℕ → World → String
  pub ready : String → World → List String
  pub idle : World → Bool

module _ (o : Client) where
  -- A call leaves what the connections watch and use.
  abbrev pub KeepsTubes : (o.World → o.World) → Type 0
  KeepsTubes f =
      (w : o.World) (c : ℕ) → (o.watched c (f w) ≡ o.watched c w) × (o.used c (f w) ≡ o.used c w)

  -- What a call leaves of the ready jobs where none is reserved before it.
  abbrev pub LeavesReady : o.World → o.World → Type 0
  LeavesReady w w' = ((tube : String) → o.ready tube w' ≡ o.ready tube w) × (o.idle w' ≡ true)

  -- The protocol, for a server with jobs of one priority and without other clients: a new connection watches the
  -- default tube only, a job is put at the end of the tube in use, and taken from the front of one that is
  -- watched. A put that ends in an error may have been carried out. Nothing is said of the ready jobs while
  -- another one is reserved, since the server makes that one ready again when its time has run out or its
  -- connection ends, nor after a delete that ends in an error.
  pub record Protocol : Type 0 where
    pub dial_keeps : KeepsTubes (λ w. (o.dial w).0)
    pub dial_watches :
        (w : o.World) (c : ℕ) → (o.dial w).1 ≡ some c → o.watched c (o.dial w).0 ≡ "default" ∷ []
    pub dial_ready : (w : o.World) → o.idle w ≡ true → LeavesReady w (o.dial w).0
    pub delete_keeps : (c id : ℕ) → KeepsTubes (λ w. (o.delete c id w).0)
    pub put_keeps : (c : ℕ) (body : String) → KeepsTubes (λ w. (o.put c body w).0)
    pub put_idle : (w : o.World) (c : ℕ) (body : String) → o.idle (o.put c body w).0 ≡ o.idle w
    pub put_done :
        (w : o.World) (c : ℕ) (body : String)
        → o.idle w ≡ true
        → (o.put c body w).1 ≡ true
        → o.ready (o.used c w) (o.put c body w).0 ≡ o.ready (o.used c w) w ++ body ∷ []
    pub put_refused :
        (w : o.World) (c : ℕ) (body : String)
        → o.idle w ≡ true
        → (o.put c body w).1 ≡ false
        → (o.ready (o.used c w) (o.put c body w).0 ≡ o.ready (o.used c w) w)
          ⊎ (o.ready (o.used c w) (o.put c body w).0 ≡ o.ready (o.used c w) w ++ body ∷ [])
    pub reserve_keeps : (c : ℕ) → KeepsTubes (λ w. (o.reserve c w).0)
    pub reserve_takes :
        (w : o.World) (c id : ℕ) (body : String)
        → o.idle w ≡ true
        → (o.reserve c w).1 ≡ job id body
        → (o.delete c id (o.reserve c w).0).1 ≡ true
        → (o.idle (o.delete c id (o.reserve c w).0).0 ≡ true)
          × ((from : String) × ((contains (o.watched c w) from ≡ true)
                × ((tube : String)
                    → o.ready tube w ≡ (
                        if tube == from
                        then body ∷ o.ready tube (o.delete c id (o.reserve c w).0).0
                        else o.ready tube (o.delete c id (o.reserve c w).0).0))))
    pub reserve_nothing :
        (w : o.World) (c : ℕ)
        → o.idle w ≡ true
        → ((o.reserve c w).1 ≡ eof) ⊎ ((o.reserve c w).1 ≡ other_error)
        → LeavesReady w (o.reserve c w).0

  -- A job that has just been reserved is deleted without an error.
  abbrev pub Deletes : Type 0
  Deletes =
      (w : o.World) (c id : ℕ) (body : String)
      → o.idle w ≡ true
      → (o.reserve c w).1 ≡ job id body
      → (o.delete c id (o.reserve c w).0).1 ≡ true
