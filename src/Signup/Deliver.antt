-- ===== src/Signup/Deliver.antt =====
-- `sendAutoMessage`, `start` and `makeDeliverFunc` of worker/signup/auto_msg.go. The sleeps and the
-- ticks are not modelled; what is posted is a list, the earliest first.
use bmw.Base.{
  Bool, List, String, [], false, if◌then◌else◌, length, ltb, nat_eq, split, string_eq, true, ◌++◌,
  ◌∷◌,
}

-- The parameters of one post.
pub record Message : Type 0 where
  pub msg_id : String
  pub gift_id : String
  pub receiver_id : String

-- The closure that `makeDeliverFunc` answers: an item without a colon is not posted.
unfoldable pub deliver_ids : String → List String → List Message
deliver_ids receiver (msg ∷ gift ∷ rest) =
    record { msg_id = msg; gift_id = gift; receiver_id = receiver } ∷ []
deliver_ids receiver (msg ∷ []) = []
deliver_ids receiver [] = []

unfoldable pub deliver : String → String → List Message
unfolding deliver_ids
deliver receiver item = deliver_ids receiver (split 58 item)

-- The loop over the ticks: what is posted, and whether `items[0]` is out of range.
unfoldable pub tick_loop : String → List String → List Message × Bool
unfolding deliver
tick_loop receiver [] = ([], true)
tick_loop receiver (item ∷ []) = (deliver receiver item, false)
tick_loop receiver (item ∷ next ∷ rest) =
    let (posted, panics) = tick_loop receiver (next ∷ rest) in
    (deliver receiver item ++ posted, panics)

-- `start`: the first item before the loop.
unfoldable pub start : String → List String → List Message × Bool
unfolding tick_loop
start receiver [] = ([], true)
start receiver (item ∷ rest) =
    let (posted, panics) = tick_loop receiver rest in (deliver receiver item ++ posted, panics)

-- `sendAutoMessage`.
unfoldable pub send_auto_message : String → String → List Message × Bool
unfolding start
send_auto_message request receiver =
    let items = split 59 request in
    if ltb 0 (length items) then start receiver items else ([], false)
