-- ===== src/Signup/Order.antt =====
-- What a request to the signup worker posts.
use mathlib.Core.List.{append-nil}
use bmw.Base.{
  List, String, [], ap, arith, false, length, length-split, ltb, nat_eq, refl, split, string_eq,
  sym, true, ◌++◌, ◌==◌, ◌∙◌, ◌∷◌, ◌≡◌,
}
use bmw.Signup.Deliver.{Message, deliver, send_auto_message, start, tick_loop}

-- The messages of all items, in order.
unfoldable pub all_messages : String → List String → List Message
all_messages receiver [] = []
all_messages receiver (item ∷ rest) = deliver receiver item ++ all_messages receiver rest

tick_loop-messages :
    (receiver item : String) (rest : List String)
    → tick_loop receiver (item ∷ rest) ≡ (all_messages receiver (item ∷ rest), false)
unfolding tick_loop all_messages
tick_loop-messages receiver item [] =
    ap (λ l. (l, false)) (sym (append-nil (deliver receiver item)))
tick_loop-messages receiver item (next ∷ rest) = rw (tick_loop-messages receiver next rest) refl

start-messages :
    (receiver : String) (items : List String)
    → start receiver items ≡ (all_messages receiver items, ltb (length items) 2)
unfolding start all_messages tick_loop
start-messages receiver [] = refl
start-messages receiver (item ∷ []) = refl
start-messages receiver (item ∷ next ∷ rest) =
    rw (tick_loop-messages receiver next rest)
      (ap (λ b. (deliver receiver item ++ all_messages receiver (next ∷ rest), b)) (ground arith))

-- A request of any number of items posts the messages of all of them, in order, each once. If it has
-- one item only, the worker then reads the first of no items, and panics; else it does not.
pub send_auto_message_lem :
    (request receiver : String)
    → let items = split 59 request in
      send_auto_message request receiver ≡ (all_messages receiver items, length items == 1)
unfolding send_auto_message
send_auto_message_lem request receiver =
    let items = split 59 request in
    let some_item : ltb 0 (length items) ≡ true = ground (arith, length-split 59 request) in
    rw (some_item) (
      start-messages receiver items
      ∙ ap (λ b. (all_messages receiver items, b)) (ground (arith, length-split 59 request)))
