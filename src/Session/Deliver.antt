-- ===== src/Session/Deliver.antt =====
-- Delivering queued updates to their receivers (internal/session/deliver.go).
pub mod Retry
pub mod Groups
use tg_control_api_server.Prelude.{
  ℕ, ◌+◌, ◌*◌, ◌^◌, min, String, Bool, true, false, Option, none, some, List, [], ◌∷◌, ◌++◌, leb,
  ltb, if◌then◌else◌, Map, get, put, text_eq,
}
use tg_control_api_server.Store.Limits.{Time}
use tg_control_api_server.Store.Deliveries.{Delivery, Health, mark_delivered, fail_delivery}

abbrev max_delivery_attempts : ℕ
max_delivery_attempts = 10

-- 5 seconds and 5 minutes.
abbrev pub backoff_base : ℕ
backoff_base = 5000000000

abbrev pub backoff_cap : ℕ
backoff_cap = 300000000000

-- `math.Min(cap, base * math.Pow(2, attempts))`; the doubles hold these values exactly.
unfoldable pub backoff : ℕ → ℕ
backoff attempts = min backoff_cap (backoff_base * 2 ^ attempts)

-- What `post` answers: accepted, or the reason, cut as `deliverOne` cuts it.
pub data Posted : Type 0 where
  accepted : Posted
  rejected : String → Posted

-- The row and its subscription after a statement, which may fail and then changes nothing.
abbrev if_written : Bool → Delivery × Health → Delivery → Health → Delivery × Health
if_written written r d h = if written then r else (d, h)

-- `deliverOne`, which ignores whether its statement was `written`; the last part tells whether the
-- receiver accepted the row.
pub deliver_one : Delivery → Health → Posted → Bool → Time → Delivery × Health × Bool
unfolding mark_delivered fail_delivery
deliver_one d h accepted written now =
    let r = if_written written (mark_delivered d h now) d h in (r.0, r.1, true)
deliver_one d h (rejected reason) written now =
    let give_up = leb max_delivery_attempts (d.attempts + 1) in
    let r =
      if_written written (fail_delivery d h (now + backoff d.attempts) give_up reason now) d h in
    (r.0, r.1, false)

-- One receiver's turn: its rows in order, up to the first that it does not accept.
deliver_rows : List (Delivery × Posted × Bool) → Health → Time → List Delivery
deliver_rows [] h now = []
deliver_rows ((d, p, written) ∷ ds) h now =
    let r = deliver_one d h p written now in
    let rest = deliver_rows ds r.1 now in if r.2 then r.0 ∷ rest else r.0 ∷ []

abbrev pub Groups : Type 0
Groups = Map String (List Delivery)

abbrev pub rows_of : Option (List Delivery) → List Delivery
rows_of none = []
rows_of (some ds) = ds

abbrev order_with : Option (List Delivery) → List String → String → List String
order_with none order s = order ++ (s ∷ [])
order_with (some ds) order s = order

abbrev pub add_row : Groups → Delivery → Groups
add_row groups d = put groups d.subscription_id (rows_of (get groups d.subscription_id) ++ (d ∷ []))

abbrev pub add_name : Groups → List String → Delivery → List String
add_name groups order d = order_with (get groups d.subscription_id) order d.subscription_id

pub group_loop : Groups → List String → List Delivery → Groups × List String
group_loop groups order [] = (groups, order)
group_loop groups order (d ∷ ds) = group_loop (add_row groups d) (add_name groups order d) ds

-- `groupBySubscription`.
pub group_by_subscription : List Delivery → Groups × List String
unfolding group_loop
group_by_subscription batch = group_loop [] [] batch
