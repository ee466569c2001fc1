-- ===== src/Relation/Uids.antt =====
-- The list of UIDs of an account type, under `appendUID` and the loop of `removeUID`.
use bmw.Base.{
  Bool-cases, Distinct, List, String, [], ap, append_assoc, arith, contains, contains-append,
  contains-drop, drop, drop-append, drop-append_cons, false, get_elem?, get_elem?-append,
  get_elem?-ne, if◌then◌else◌, inl, inr, insert, length, length-append, lookup-insert, nat_eq, not,
  refl, some, string_eq, suc, take-append, true, without, without_absent, zero, ℕ, ◌&&◌, ◌++◌, ◌+◌,
  ◌-◌, ◌==◌, ◌∙◌, ◌∷◌, ◌≡◌, ◌≢◌,
}
use bmw.Relation.Registry.{append_uid, get_uids, remove, remove_loop, remove_uid, shifted, uids}
use bmw.Relation.Types.{State}

absent_loop :
    (uid : String) (todo i : ℕ) (array held : List String)
    → contains array uid ≡ false
    → remove_loop uid todo i array held ≡ held
unfolding remove_loop
absent_loop uid zero i array held h = refl
absent_loop uid (suc todo) i array held h =
    ground (arith, get_elem?-ne array i uid h, absent_loop uid todo (i + 1) array held h)

remove_lem : (x : String) (pre r : List String) → remove (length pre) (pre ++ x ∷ r) ≡ pre ++ r
unfolding remove
remove_lem x pre r = rw (take-append pre (x ∷ r), drop-append_cons pre x r)

-- The cell that the shift leaves behind holds a later item, which is not the removed one.
shifted_absent :
    (uid x y : String) (pre r : List String)
    → contains pre uid ≡ false
    → contains (y ∷ r) uid ≡ false
    → contains (shifted (length pre) (pre ++ x ∷ y ∷ r)) uid ≡ false
unfolding shifted
shifted_absent uid x y pre r hp hr =
    let tail : List String = x ∷ y ∷ r in
    let e : length (pre ++ tail) - 1 ≡ length (y ∷ r) + length pre =
      omega (arith, length-append pre tail) in
    rw
      (
        remove_lem x pre (y ∷ r),
        e,
        drop-append pre tail (length (y ∷ r)),
        contains-append (pre ++ y ∷ r) (drop (length r) (y ∷ r)) uid,
        contains-append pre (y ∷ r) uid,
        hp,
        hr,
      )
      (contains-drop (length r) (y ∷ r) uid hr)

remove_loop_hit :
    (uid : String) (todo i : ℕ) (array held : List String)
    → get_elem? array i ≡ some uid
    → remove_loop uid (suc todo) i array held
      ≡ remove_loop uid todo (i + 1) (shifted i array) (remove i array)
unfolding remove_loop
remove_loop_hit uid todo i array held h = ground arith

remove_loop_miss :
    (uid value : String) (todo i : ℕ) (array held : List String)
    → get_elem? array i ≡ some value
    → value ≢ uid
    → remove_loop uid (suc todo) i array held ≡ remove_loop uid todo (i + 1) array held
unfolding remove_loop
remove_loop_miss uid value todo i array held h n = ground arith

-- After the only occurrence the rounds that are left change nothing.
after_hit :
    (uid x : String) (pre r : List String) (i : ℕ)
    → contains pre uid ≡ false
    → contains r uid ≡ false
    → remove_loop uid (length r) i (shifted (length pre) (pre ++ x ∷ r)) (pre ++ r) ≡ pre ++ r
after_hit uid x pre [] i hp hr = unfold remove_loop in refl
after_hit uid x pre (y ∷ r) i hp hr =
    absent_loop uid (length (y ∷ r)) i _ (pre ++ y ∷ r) (shifted_absent uid x y pre r hp hr)

remove_loop_found :
    (uid : String) (pre rest held : List String)
    → contains pre uid ≡ false
    → Distinct rest
    → contains rest uid ≡ true
    → remove_loop uid (length rest) (length pre) (pre ++ rest) held ≡ pre ++ without uid rest
remove_loop_found uid pre [] held hp d h = cc
remove_loop_found uid pre (x ∷ r) held hp d h = elim (string_eq.dec x uid) [
  | yes e ↦
      let absent : contains r uid ≡ false = ground arith in
      rw
        (
          remove_loop_hit uid (length r) (length pre) (pre ++ x ∷ r) held
              (get_elem?-append pre (x ∷ r) ∙ ap some e),
          remove_lem x pre r,
          after_hit uid x pre r (length pre + 1) hp absent,
        )
        (ground (arith, without_absent uid r absent))
  | no n ↦
      let shorter : contains (pre ++ x ∷ []) uid ≡ false =
        ground (arith, contains-append pre (x ∷ []) uid) in
      let kept : without uid (x ∷ r) ≡ x ∷ without uid r = ground arith in
      let later = remove_loop_found uid (pre ++ x ∷ []) r held shorter d.1 (ground arith) in
      rw
        (remove_loop_miss uid x (length r) (length pre) (pre ++ x ∷ r) held
          (get_elem?-append pre (x ∷ r)) n)
        (rw kept (
          rw
            (
              length-append pre (x ∷ []),
              append_assoc pre (x ∷ []) r,
              append_assoc pre (x ∷ []) (without uid r),
            )
            at later))
]

pub uids-get_uids : (tp tp' : String) (s : State) → uids tp' (get_uids tp s) ≡ uids tp' s
unfolding get_uids uids
uids-get_uids tp tp' s = ground (arith, lookup-insert tp' tp [] s.type_uid)

uids-insert :
    (tp tp' : String) (ids : List String) (s : State)
    → uids tp' (record s { type_uid = insert tp ids s.type_uid })
      ≡ (if tp' == tp then ids else uids tp' s)
unfolding uids
uids-insert tp tp' ids s = ground (arith, lookup-insert tp' tp ids s.type_uid)

-- `removeUID` takes the UID out of its type's list and leaves the others in their order.
pub uids-remove_uid :
    (tp tp' uid : String) (s : State)
    → Distinct (uids tp s)
    → uids tp' (remove_uid tp uid s) ≡ (if tp' == tp then without uid (uids tp s) else uids tp' s)
unfolding remove_uid
uids-remove_uid tp tp' uid s d = elim (Bool-cases (contains (uids tp s) uid)) [
  | inl there ↦ rw (
    there,
    remove_loop_found uid [] (uids tp s) (uids tp s) refl d there,
    uids-insert tp tp' (without uid (uids tp s)) (get_uids tp s),
    uids-get_uids tp tp' s,
  )
  | inr absent ↦
      rw (absent, without_absent uid (uids tp s) absent, uids-get_uids tp tp' s) (ground arith)
]

pub uids-append_uid :
    (tp tp' uid : String) (s : State)
    → uids tp' (append_uid tp uid s)
      ≡ (if tp' == tp && not (contains (uids tp s) uid) then uids tp s ++ uid ∷ [] else uids tp' s)
unfolding append_uid
uids-append_uid tp tp' uid s =
    ground
      (arith, uids-insert tp tp' (uids tp s ++ uid ∷ []) (get_uids tp s), uids-get_uids tp tp' s)
