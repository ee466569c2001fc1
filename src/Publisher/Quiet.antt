-- ===== src/Publisher/Quiet.antt =====
-- What Heartbeat does after Unregister.
-- The refreshes of a trace, which only Heartbeat asks for.
use bmw.Base.{
  All, Bool, Bool-cases, List, Option, [], arith, false, if◌then◌else◌, inl, inr, nat_eq, none,
  refl, some, string_eq, suc, true, ℕ, ◌++◌, ◌+◌, ◌-◌, ◌<◌, ◌==◌, ◌∙◌, ◌∷◌, ◌≡◌, ◌≤◌, ◌⊎◌,
}
use bmw.Publisher.Server.{
  delete_service, get_full_path, heartbeat, heartbeat_set, next, receive, refreshed, register,
  registered, run, set_index, set_service, stop, unregister, unregister_end, unregistered,
}
use bmw.Publisher.Types.{
  Client, EtcdPublisher, Event, Input, SetOptions, State, deleted, done, heartbeat_call,
  register_call, set_call, stop_call, tick, unregister_call, was_set,
}

abbrev pub is_refresh : Event → Bool
is_refresh (was_set path options) = options.refresh
is_refresh (deleted path index) = false

unfoldable pub refreshes : List Event → ℕ
refreshes [] = 0
refreshes (e ∷ es) = if is_refresh e then suc (refreshes es) else refreshes es

refreshes-append : (es fs : List Event) → refreshes (es ++ fs) ≡ refreshes es + refreshes fs
unfolding refreshes
refreshes-append [] fs = omega arith
refreshes-append (e ∷ es) fs = ground (arith, refreshes-append es fs)

module _ (c : Client) (ep : EtcdPublisher) where
  -- Each running Heartbeat finds a value in `quit`, and at most `k` calls of `Set` are still to come.
  record Stopped (n k : ℕ) (s : State c) : Type 0 where
    beats : s.beating + s.setting ≤ s.service.quit
    room : s.service.quit ≤ 1
    late : s.setting ≤ k
    up : (s.crashed ≡ false) ⊎ (0 < k)
    count : refreshes s.trace + s.setting ≤ n + k

  asked-Stopped :
      {n k : ℕ} (s : State c) (w : c.World) (e : Event)
      → is_refresh e ≡ false
      → Stopped n k s
      → Stopped n k (record s { world = w; trace = s.trace ++ e ∷ [] })
  unfolding refreshes
  asked-Stopped {n} s w e h b = record {
    beats = b.beats;
    room = b.room;
    late = b.late;
    up = b.up;
    count =
        let same : refreshes (s.trace ++ e ∷ []) ≡ refreshes s.trace =
          refreshes-append s.trace (e ∷ []) ∙ rw (h) (omega arith) in
        omega (arith, same, b.count);
  }

  registered-Stopped :
      {n k : ℕ} (s : State c) (answer : Option ℕ)
      → Stopped n k s
      → Stopped n k (registered c ep (s, answer)).0
  unfolding registered
  registered-Stopped s none b = b
  registered-Stopped s (some index) b = record {
    beats = b.beats;
    room = b.room;
    late = b.late;
    up = b.up;
    count = b.count;
  }

  unregistered-Stopped :
      {n k : ℕ} (s : State c) (answer : Option ℕ)
      → Stopped n k s
      → Stopped n k (unregistered c ep (s, answer)).0
  unfolding unregistered
  unregistered-Stopped s none b = b
  unregistered-Stopped s (some index) b = record {
    beats = b.beats;
    room = b.room;
    late = b.late;
    up = b.up;
    count = b.count;
  }

  stop-Stopped : {n k : ℕ} (s : State c) → Stopped n k s → Stopped n k (unregister_end c ep s).0
  unfolding unregister_end stop
  stop-Stopped s b = elim (Bool-cases (s.service.quit == 0)) [
    | inl e ↦
        rw (e, unregister_end)
          (record {
            beats = ground (arith, e, b.beats);
            room = omega arith;
            late = b.late;
            up = b.up;
            count = b.count;
          })
    | inr e ↦
        rw (e, unregister_end)
          (record { beats = b.beats; room = b.room; late = b.late; up = b.up; count = b.count })
  ]

  -- A tick of such a Heartbeat ends it.
  heartbeat-Stopped :
      {n k : ℕ} (s : State c)
      → (s.beating == 0) ≡ false
      → Stopped n k s
      → Stopped n k (heartbeat c ep s)
        × ((heartbeat c ep s).beating + (heartbeat c ep s).setting ≡ 0)
  unfolding heartbeat receive
  heartbeat-Stopped s some_beat b = elim (Bool-cases (s.service.quit == 0)) [
    | inl e ↦ absurd (ground (arith, e, b.beats, some_beat))
    | inr there ↦
        rw (there, heartbeat)
          (elim (Bool-cases (s.stopping == 0)) [
            | inl free ↦ rw (free) (
              record {
                beats = ground (arith, b.beats, b.room, some_beat);
                room = omega (arith, b.room);
                late = b.late;
                up = b.up;
                count = b.count;
              },
              ground (arith, b.beats, b.room, some_beat),
            )
            | inr waits ↦ rw (waits) (
              record {
                beats = omega (arith, b.beats);
                room = b.room;
                late = b.late;
                up = b.up;
                count = b.count;
              },
              ground (arith, b.beats, b.room, some_beat),
            )
          ])
  ]

  one_refresh :
      (es : List Event) (e : Event)
      → is_refresh e ≡ true
      → refreshes (es ++ e ∷ []) ≡ suc (refreshes es)
  unfolding refreshes
  one_refresh es e h = refreshes-append es (e ∷ []) ∙ rw (h) (omega arith)

  set_index-Stopped :
      {n k : ℕ} (b : Bool) (index : ℕ) (s : State c)
      → Stopped n k s
      → Stopped n k (if b then s else set_index c ep index s)
  set_index-Stopped true index s h = h
  set_index-Stopped false index s h = record {
    beats = h.beats;
    room = h.room;
    late = h.late;
    up = h.up;
    count = h.count;
  }

  refreshed-Stopped :
      {n k : ℕ} (s : State c) (w : c.World) (answer : Option ℕ) (e : Event)
      → is_refresh e ≡ true
      → (s.setting == 0) ≡ false
      → Stopped n k s
      → Stopped n k (
          refreshed c ep
            (record s { world = w; trace = s.trace ++ e ∷ []; setting = s.setting - 1 }, answer))
  unfolding refreshed
  refreshed-Stopped s w none e h some_set b = record {
    beats = omega (arith, b.beats);
    room = b.room;
    late = omega (arith, b.late);
    up = inr (ground (arith, b.late, some_set));
    count = ground (arith, one_refresh s.trace e h, b.count, some_set);
  }
  refreshed-Stopped s w (some index) e h some_set b =
      set_index-Stopped (index == 0) index _ (record {
        beats = ground (arith, b.beats, some_set);
        room = b.room;
        late = omega (arith, b.late);
        up = b.up;
        count = ground (arith, one_refresh s.trace e h, b.count, some_set);
      })

  either-Stopped :
      {n k : ℕ} (b : Bool) (s s' : State c)
      → Stopped n k s
      → (b ≡ false → Stopped n k s')
      → Stopped n k (if b then s else s')
  either-Stopped true s s' h h' = h
  either-Stopped false s s' h h' = h' refl

  set-Stopped :
      {n k : ℕ} (s : State c)
      → (s.setting == 0) ≡ false
      → Stopped n k s
      → Stopped n k (heartbeat_set c ep s)
  unfolding heartbeat_set set_service
  set-Stopped s some_set b =
      let options : SetOptions = record { ttl = ep.ttl; prev_index = 0; refresh = true } in
      let path = get_full_path c ep s.service in
      let answer = c.set path (c.json s.service.id s.service.name s.service.host) options s.world in
      refreshed-Stopped s answer.0 answer.1 (was_set path options) refl some_set b

  next-Stopped :
      {n k : ℕ} (i : Input) (s : State c)
      → ¬ (i ≡ heartbeat_call)
      → Stopped n k s
      → Stopped n k (next c ep i s)
  unfolding next register set_service unregister delete_service
  next-Stopped register_call s old h =
      let options : SetOptions = record {
        ttl = ep.ttl;
        prev_index = s.service.last_index;
        refresh = false;
      } in
      let path = get_full_path c ep s.service in
      let answer = c.set path (c.json s.service.id s.service.name s.service.host) options s.world in
      registered-Stopped _ answer.1 (asked-Stopped s answer.0 (was_set path options) refl h)
  next-Stopped unregister_call s old h =
      let path = get_full_path c ep s.service in
      let answer = c.delete path s.service.last_index s.world in
      unregistered-Stopped _ answer.1
        (asked-Stopped s answer.0 (deleted path s.service.last_index) refl h)
  next-Stopped stop_call s old h = either-Stopped (s.to_stop == 0) s _ h (λ e. stop-Stopped s h)
  next-Stopped heartbeat_call s old h = absurd (old refl)
  next-Stopped tick s old h =
      either-Stopped (s.beating == 0) s _ h (λ e. (heartbeat-Stopped s e h).0)
  next-Stopped set_call s old h = either-Stopped (s.setting == 0) s _ h (λ e. set-Stopped s e h)

  abbrev pub NoneStarts : List Input → Type 0
  NoneStarts = All (λ i. ¬ (i ≡ heartbeat_call))

  run-Stopped :
      {n k : ℕ} (is : List Input) (s : State c)
      → NoneStarts is
      → Stopped n k s
      → Stopped n k (run c ep is s)
  unfolding run
  run-Stopped [] s old h = h
  run-Stopped (i ∷ is) s old h =
      either-Stopped s.crashed s _ h
        (λ e. run-Stopped is (next c ep i s) old.1 (next-Stopped i s old.0 h))

  -- The next `Set` in flight and the next tick.
  abbrev pub settled : State c → State c
  settled s = next c ep tick (next c ep set_call s)

  tick-ends :
      {n k : ℕ} (s : State c)
      → s.setting ≡ 0
      → Stopped n k s
      → (next c ep tick s).beating + (next c ep tick s).setting ≡ 0
  unfolding next
  tick-ends s h b = elim (Bool-cases (s.beating == 0)) [
    | inl e ↦ rw (e, next) (ground (arith, e, h))
    | inr e ↦ rw (e, next) (heartbeat-Stopped s e b).1
  ]

  refreshed-setting :
      (s : State c) (answer : Option ℕ) → (refreshed c ep (s, answer)).setting ≡ s.setting
  unfolding refreshed
  refreshed-setting s none = refl
  refreshed-setting s (some index) = elim (Bool-cases (index == 0)) [
    | inl e ↦ rw (e) refl
    | inr e ↦ rw (e) refl
  ]

  heartbeat_set-setting : (s : State c) → (heartbeat_set c ep s).setting ≡ s.setting - 1
  unfolding heartbeat_set set_service
  heartbeat_set-setting s = refreshed-setting _ _

  set_call-setting : {n k : ℕ} (s : State c) → Stopped n k s → (next c ep set_call s).setting ≡ 0
  unfolding next
  set_call-setting s b = elim (Bool-cases (s.setting == 0)) [
    | inl e ↦ rw (e, next) (ground (arith, e))
    | inr e ↦ rw (e, next) (omega (arith, heartbeat_set-setting s, b.beats, b.room))
  ]

  -- Let at most one Heartbeat run, and let the call of Stop at the end of Unregister return. In any later
  -- sequence of ticks and calls of Register and Unregister, with any answers of etcd, a Heartbeat refreshes the
  -- service only if it was already behind its select when Stop was called, once, and only that refresh can make
  -- it crash. It has ended at the next tick after it.
  pub unregister-stops :
      (is : List Input) (s : State c)
      → s.beating + s.setting ≤ 1
      → s.service.quit ≤ 1
      → s.crashed ≡ false
      → (unregister_end c ep s).1 ≡ done
      → NoneStarts is
      → let s' = run c ep is (unregister_end c ep s).0 in
        (refreshes s'.trace ≤ refreshes s.trace + s.setting)
        × (((s'.crashed ≡ false) ⊎ (0 < s.setting))
            × ((settled s').beating + (settled s').setting ≡ 0))
  unfolding unregister_end stop
  unregister-stops is s beats room up accepted old =
      let start : Stopped (refreshes s.trace) s.setting (unregister_end c ep s).0 =
        elim (Bool-cases (s.service.quit == 0)) [
          | inl e ↦
              rw (e, unregister_end)
                (record {
                  beats = beats;
                  room = omega arith;
                  late = omega arith;
                  up = inl up;
                  count = omega arith;
                })
          | inr e ↦ absurd (ground (arith, e, accepted))
        ] in
      let s' = run c ep is (unregister_end c ep s).0 in
      let b = run-Stopped is (unregister_end c ep s).0 old start in
      let after = next-Stopped set_call s' (λ e. cc e) b in
      (
        omega (arith, b.count),
        (b.up, tick-ends (next c ep set_call s') (set_call-setting s' b) after),
      )
