-- ===== src/Beanstalk/Conserved.antt =====
-- What becomes of the jobs of a tube.
use bmw.Base.{
  ==-refl, Bool, Bool-cases, List, Option, Option-cases, String, [], ap, append-nil, append_assoc,
  arith, contains, eq_of_==, false, if◌then◌else◌, inl, inr, nat_eq, none, refl, some, string_eq,
  subst, sym, true, ℕ, ◌++◌, ◌==◌, ◌||◌, ◌∙◌, ◌∷◌, ◌≡◌, ◌⊎◌,
}
use bmw.Beanstalk.Producer.{
  Producer, Turn, dialled, new_beanstalk_conn, on_reserved, push, pushes, run, turn, wait, waits,
}
use bmw.Beanstalk.Types.{Client, Deletes, Protocol, Reserved, eof, job, other_error}

-- Texts that are among some answers, in order.
pub data Among : List String → List (Option String) → Type 0 where
  nothing : Among [] []
  skips :
      {bs : List String} {xs : List (Option String)} (a : Option String)
      → Among bs xs
      → Among bs (xs ++ a ∷ [])
  takes :
      {bs : List String} {xs : List (Option String)} (b : String)
      → Among bs xs
      → Among (bs ++ b ∷ []) (xs ++ some b ∷ [])

-- What has come into a tube of some calls of `Push`, in order: the texts of those without an error, and maybe
-- some of the others.
pub data Landed : List (String × Bool) → List String → Type 0 where
  no_push : Landed [] []
  landed :
      {ps : List (String × Bool)} {bs : List String} (body : String) (done : Bool)
      → Landed ps bs
      → Landed (ps ++ (body, done) ∷ []) (bs ++ body ∷ [])
  refused :
      {ps : List (String × Bool)} {bs : List String} (body : String)
      → Landed ps bs
      → Landed (ps ++ (body, false) ∷ []) bs

module _ (o : Client) (protocol : Protocol o) (deletes : Deletes o) (tube : String)
    (named : (tube == "default") ≡ false) where
  -- Since a state with some ready jobs, in which `Wait` may have lost its connection.
  record Since (before : List String) (lost : Bool) (p : Producer o) : Type 0 where
    uses : o.used p.pusher_conn p.world ≡ tube
    taken : List String
    among : Among taken p.answers
    come : List String
    lands : Landed p.pushed come
    balance : taken ++ o.ready tube p.world ≡ before ++ come
    quiet : o.idle p.world ≡ true
    deaf :
        lost ≡ true
        → (taken ≡ []) × ((p.dialling ≡ true) ⊎ (o.watched p.conn p.world ≡ "default" ∷ []))

  -- What a put leaves of the tube in use, and what has come into it.
  Put : (body : String) (p : Producer o) → List String → Type 0
  Put body p come =
      (come' : List String) × (Landed (push o body p).pushed come'
        × ((taken before : List String)
            → taken ++ o.ready tube p.world ≡ before ++ come
            → taken ++ o.ready tube (push o body p).world ≡ before ++ come'))

  added :
      (taken before come : List String) (body : String) (ready ready' : List String)
      → ready' ≡ ready ++ body ∷ []
      → taken ++ ready ≡ before ++ come
      → taken ++ ready' ≡ before ++ (come ++ body ∷ [])
  added taken before come body ready ready' e h =
      ap (λ l. taken ++ l) e
      ∙ sym (append_assoc taken ready (body ∷ []))
      ∙ ap (λ l. l ++ body ∷ []) h
      ∙ append_assoc before come (body ∷ [])

  push_balance :
      (body : String) (p : Producer o) (come : List String)
      → o.used p.pusher_conn p.world ≡ tube
      → o.idle p.world ≡ true
      → Landed p.pushed come
      → Put body p come
  unfolding push Put
  push_balance body p come uses quiet lands =
      let c = p.pusher_conn in
      let (w', done) = o.put c body p.world in
      let at : (t : String) → List String = λ t. o.ready t w' in
      elim (Bool-cases done) [
        | inl e ↦
            let full : at tube ≡ o.ready tube p.world ++ body ∷ [] =
              subst (λ t. at t ≡ o.ready t p.world ++ body ∷ []) uses
                (protocol.put_done p.world c body quiet e) in
            (
              come ++ body ∷ [],
              (
                landed body done lands,
                λ taken before h.
                    added taken before come body (o.ready tube p.world) (at tube) full h,
              ),
            )
        | inr e ↦
            elim (subst (λ t. (at t ≡ o.ready t p.world) ⊎ (at t ≡ o.ready t p.world ++ body ∷ []))
              uses (protocol.put_refused p.world c body quiet e)) [
                | inl same ↦ (
                  come,
                  (
                    subst (λ d. Landed (p.pushed ++ (body, d) ∷ []) come) (sym e)
                        (refused body lands),
                    λ taken before h. ap (λ l. taken ++ l) same ∙ h,
                  ),
                )
                | inr full ↦ (
                  come ++ body ∷ [],
                  (
                    landed body done lands,
                    λ taken before h.
                        added taken before come body (o.ready tube p.world) (at tube) full h,
                  ),
                )
              ]
      ]

  push-Since :
      {before : List String} {lost : Bool} (body : String) (p : Producer o)
      → Since before lost p
      → Since before lost (push o body p)
  unfolding push Put
  push-Since {before} body p h =
      let put = push_balance body p h.come h.uses h.quiet h.lands in
      record {
        uses = (protocol.put_keeps p.pusher_conn body p.world p.pusher_conn).1 ∙ h.uses;
        taken = h.taken;
        among = h.among;
        come = put.0;
        lands = put.1.0;
        balance = put.1.1 h.taken before h.balance;
        quiet = protocol.put_idle p.world p.pusher_conn body ∙ h.quiet;
        deaf = λ l.
            let (untaken, still) = h.deaf l in
            let same = (protocol.put_keeps p.pusher_conn body p.world p.conn).0 in
            (untaken, elim still [ inl d ↦ inl d | inr w ↦ inr (same ∙ w) ]);
      }

  -- A connection that watches the default tube only takes no job of another.
  deaf-takes :
      (from : String) (watched : List String)
      → watched ≡ "default" ∷ []
      → contains watched from ≡ true
      → (tube == from) ≡ false
  deaf-takes from watched w h = elim (Bool-cases (tube == from)) [
    | inl same ↦
        let listed : (("default" == from) || false) ≡ true =
          subst (λ l. contains l from ≡ true) w h in
        let standard : "default" ≡ from = eq_of_== "default" from (ground (arith, listed)) in
        let own : tube ≡ "default" = eq_of_== tube from same ∙ sym standard in
        absurd (
          ground (
            arith,
            ==-refl {A = String} "default",
            subst (λ t. (t == "default") ≡ false) own named,
          ))
    | inr other ↦ other
  ]

  -- `Reserve` and `Delete` leave the tubes of the connections.
  after_delete :
      (id : ℕ) (p : Producer o) (c : ℕ)
      → (o.watched c (o.delete p.conn id (o.reserve p.conn p.world).0).0 ≡ o.watched c p.world)
        × (o.used c (o.delete p.conn id (o.reserve p.conn p.world).0).0 ≡ o.used c p.world)
  after_delete id p c =
      let (w, u) = protocol.delete_keeps p.conn id (o.reserve p.conn p.world).0 c in
      let (w', u') = protocol.reserve_keeps p.conn p.world c in (w ∙ w', u ∙ u')

  on_reserved-Since :
      {before : List String} {lost : Bool} (r : Reserved) (p : Producer o)
      → p.dialling ≡ false
      → (o.reserve p.conn p.world).1 ≡ r
      → Since before lost p
      → Since before lost (on_reserved o r (record p { world = (o.reserve p.conn p.world).0 }))
  unfolding on_reserved
  on_reserved-Since {before} (job id body) p idle e h =
      let (gone, (from, (heard, takes_from))) =
        protocol.reserve_takes p.world p.conn id body h.quiet e
          (deletes p.world p.conn id body h.quiet e) in
      elim (Bool-cases (tube == from)) [
        | inl same ↦ record {
          uses = (after_delete id p p.pusher_conn).1 ∙ h.uses;
          taken = h.taken ++ body ∷ [];
          among = takes body h.among;
          come = h.come;
          lands = h.lands;
          quiet = gone;
          balance =
              append_assoc h.taken (body ∷ []) _
              ∙ ap (λ l. h.taken ++ l) (sym (rw (takes_from tube, same) refl))
              ∙ h.balance;
          deaf = λ l. elim (h.deaf l).1 [
            | inl d ↦ absurd (ground (arith, idle, d))
            | inr w ↦
                absurd (ground (arith, same, deaf-takes from (o.watched p.conn p.world) w heard))
          ];
        }
        | inr other ↦ record {
          uses = (after_delete id p p.pusher_conn).1 ∙ h.uses;
          taken = h.taken;
          among = skips (some body) h.among;
          come = h.come;
          lands = h.lands;
          quiet = gone;
          balance = ap (λ l. h.taken ++ l) (sym (rw (takes_from tube, other) refl)) ∙ h.balance;
          deaf = λ l.
              let (untaken, still) = h.deaf l in
              (
                untaken,
                elim still [ inl d ↦ inl d | inr w ↦ inr ((after_delete id p p.conn).0 ∙ w) ],
              );
        }
      ]
  on_reserved-Since eof p idle e h = record {
    uses = (protocol.reserve_keeps p.conn p.world p.pusher_conn).1 ∙ h.uses;
    taken = h.taken;
    among = h.among;
    come = h.come;
    lands = h.lands;
    quiet = (protocol.reserve_nothing p.world p.conn h.quiet (inl e)).1;
    balance =
        ap (λ l. h.taken ++ l) ((protocol.reserve_nothing p.world p.conn h.quiet (inl e)).0 tube)
        ∙ h.balance;
    deaf = λ l. ((h.deaf l).0, inl refl);
  }
  on_reserved-Since other_error p idle e h = record {
    uses = (protocol.reserve_keeps p.conn p.world p.pusher_conn).1 ∙ h.uses;
    taken = h.taken;
    among = skips none h.among;
    come = h.come;
    lands = h.lands;
    quiet = (protocol.reserve_nothing p.world p.conn h.quiet (inr e)).1;
    balance =
        ap (λ l. h.taken ++ l) ((protocol.reserve_nothing p.world p.conn h.quiet (inr e)).0 tube)
        ∙ h.balance;
    deaf = λ l.
        let (untaken, still) = h.deaf l in
        (
          untaken,
          elim still [
            | inl d ↦ inl d
            | inr w ↦ inr ((protocol.reserve_keeps p.conn p.world p.conn).0 ∙ w)
          ],
        );
  }

  new_beanstalk_conn-Since :
      {before : List String} {lost : Bool} (p : Producer o)
      → p.dialling ≡ true
      → Since before lost p
      → Since before lost (new_beanstalk_conn o p)
  unfolding new_beanstalk_conn dialled
  new_beanstalk_conn-Since p busy h = elim (Option-cases (o.dial p.world).1) [
    | inl e ↦
        rw (e, new_beanstalk_conn)
          (record {
            uses = (protocol.dial_keeps p.world p.pusher_conn).1 ∙ h.uses;
            taken = h.taken;
            among = h.among;
            come = h.come;
            lands = h.lands;
            quiet = (protocol.dial_ready p.world h.quiet).1;
            balance =
                ap (λ l. h.taken ++ l) ((protocol.dial_ready p.world h.quiet).0 tube) ∙ h.balance;
            deaf = λ l. ((h.deaf l).0, inl busy);
          })
    | inr (c, e) ↦
        rw (e, new_beanstalk_conn)
          (record {
            uses = (protocol.dial_keeps p.world p.pusher_conn).1 ∙ h.uses;
            taken = h.taken;
            among = skips none h.among;
            come = h.come;
            lands = h.lands;
            quiet = (protocol.dial_ready p.world h.quiet).1;
            balance =
                ap (λ l. h.taken ++ l) ((protocol.dial_ready p.world h.quiet).0 tube) ∙ h.balance;
            deaf = λ l. ((h.deaf l).0, inr (protocol.dial_watches p.world c e));
          })
  ]

  waits-Since :
      {before : List String} {lost : Bool} (busy : Bool) (p : Producer o)
      → p.dialling ≡ busy
      → Since before lost p
      → Since before lost (if busy then new_beanstalk_conn o p else wait o p)
  unfolding wait
  waits-Since true p e h = new_beanstalk_conn-Since p e h
  waits-Since false p e h = on_reserved-Since (o.reserve p.conn p.world).1 p e refl h

  turn-Since :
      {before : List String} {lost : Bool} (t : Turn) (p : Producer o)
      → Since before lost p
      → Since before lost (turn o t p)
  unfolding turn
  turn-Since (pushes body) p h = push-Since body p h
  turn-Since waits p h = waits-Since p.dialling p refl h

  run-Since :
      {before : List String} {lost : Bool} (ts : List Turn) (p : Producer o)
      → Since before lost p
      → Since before lost (run o ts p)
  unfolding run
  run-Since [] p h = h
  run-Since (t ∷ ts) p h = run-Since ts (turn o t p) (turn-Since t p h)

  -- For a tube other than the default one, into which the producer pushes, on a server on which no job is
  -- reserved at first and a job that Wait has just reserved is deleted without an error: after any calls of Push
  -- and Wait the jobs that Wait took from the tube and those still ready are those that were ready and those
  -- that Push has put, in order, among which is each that it put without an error; and Wait has returned
  -- what it took. Where Wait has lost its connection at the start, it takes nothing from the tube: the new
  -- connection does not watch it.
  pub run-Among :
      (ts : List Turn) (p : Producer o)
      → o.used p.pusher_conn p.world ≡ tube
      → o.idle p.world ≡ true
      → p.answers ≡ []
      → p.pushed ≡ []
      → (taken : List String) × ((come : List String) × (Among taken (run o ts p).answers
            × (Landed (run o ts p).pushed come
                × (taken ++ o.ready tube (run o ts p).world ≡ o.ready tube p.world ++ come)
                × ((p.dialling ≡ false) ⊎ (taken ≡ [])))))
  run-Among ts p uses quiet unanswered fresh =
      let start : Since (o.ready tube p.world) p.dialling p = record {
        uses = uses;
        taken = [];
        among = subst (Among []) (sym unanswered) nothing;
        come = [];
        lands = subst (λ l. Landed l []) (sym fresh) no_push;
        quiet = quiet;
        balance = sym (append-nil (o.ready tube p.world));
        deaf = λ l. (refl, inl l);
      } in
      let since = run-Since ts p start in
      (
        since.taken,
        (
          since.come,
          (
            since.among,
            (
              since.lands,
              since.balance,
              elim (Bool-cases p.dialling) [
                | inl lost ↦ inr (since.deaf lost).0
                | inr kept ↦ inl kept
              ],
            ),
          ),
        ),
      )
