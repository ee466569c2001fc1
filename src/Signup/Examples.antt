-- ===== src/Signup/Examples.antt =====
-- The theorem on worker/signup at a request of two items, of which the second has no gift.
use bmw.Base.{String, [], false, length, nat_eq, refl, split, string_eq, ◌==◌, ◌∷◌, ◌≡◌}
use bmw.Signup.Deliver.{deliver, deliver_ids, send_auto_message, start, tick_loop}
use bmw.Signup.Order.{all_messages, send_auto_message_lem}

abbrev request : String
request = "m1:g1;m2"

send_auto_message_lem_example :
    send_auto_message request "r"
    ≡ (all_messages "r" (split 59 request), length (split 59 request) == 1)
send_auto_message_lem_example = send_auto_message_lem request "r"

request-posts :
    send_auto_message request "r"
    ≡ (record { msg_id = "m1"; gift_id = "g1"; receiver_id = "r" } ∷ [], false)
unfolding send_auto_message split start tick_loop deliver deliver_ids nat_eq
request-posts = refl
