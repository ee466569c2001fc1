-- ===== src/Relation/Writes.antt =====
-- The fields of the state that `handleInput` leaves.
use bmw.Base.{
  String, [], ap, arith, if◌then◌else◌, lookup, lookup-insert_self, nat_eq, or_zero, string_eq, ℕ,
  ◌==◌, ◌∙◌, ◌≡◌,
}
use bmw.Relation.Input.{handle_input_done, input_user}
use bmw.Relation.Match.{bind_input, handle_input}
use bmw.Relation.Registry.{uids}
use bmw.Relation.Types.{InputRequest, State}
use bmw.Relation.User.{append_friends, get_tp_id, set_friends, set_tp_id}

pub handle_input_heap :
    (p q : ℕ) (input : InputRequest) (s : State)
    → (handle_input p input s).heap q ≡ (if q == p then input_user s p input else s.heap q)
handle_input_heap p q input s = ap (λ (t : State). t.heap q) ((handle_input_done p input s).2)

pub handle_input_users :
    (p : ℕ) (input : InputRequest) (s : State) → (handle_input p input s).users ≡ s.users
handle_input_users p input s = ap (λ (t : State). t.users) ((handle_input_done p input s).2)

pub uids-handle_input :
    (p : ℕ) (input : InputRequest) (s : State) (tp : String)
    → uids tp (handle_input p input s) ≡ uids tp s
unfolding uids
uids-handle_input p input s tp =
    let r = handle_input_done p input s in
    ap (λ (t : State). or_zero (lookup tp t.type_uid) []) (r.2) ∙ r.1 tp

pub input_user_tp_id :
    (s : State) (p : ℕ) (input : InputRequest)
    → get_tp_id (input_user s p input) input.type
      ≡ (if input.tp_id == "" then get_tp_id (s.heap p) input.type else input.tp_id)
unfolding get_tp_id set_friends append_friends bind_input set_tp_id
input_user_tp_id s p input =
    ground (arith, lookup-insert_self input.type input.tp_id (s.heap p).bind_app)
