-- ===== src/Store/Deliveries.antt =====
-- Rows of table webhook_delivery, with the delivery columns of their subscription
-- (internal/store/store.go).
use tg_control_api_server.Prelude.{
  ℕ, ◌+◌, String, Bool, not, Option, some, List, ltb, if◌then◌else◌, select, length,
}
use tg_control_api_server.Store.Limits.{Time}

pub data Status : Type 0 where
  pending delivered failed : Status

-- A row, joined with its subscription's target as `ClaimDeliveries` returns it.
pub record Delivery : Type 0 where
  pub id : String
  pub session_id : String
  pub subscription_id : String
  pub payload : String
  pub attempts : ℕ
  pub status : Status
  pub next_try_at : Time
  pub created_at : Time

-- The columns of update_subscription that a delivery changes.
pub record Health : Type 0 where
  pub last_delivered_at : Option Time
  pub last_error : Option String
  pub last_error_at : Option Time

-- `MarkDelivered`.
unfoldable pub mark_delivered : Delivery → Health → Time → Delivery × Health
mark_delivered d h now = (
  record d { status = delivered; attempts = d.attempts + 1 },
  record h { last_delivered_at = some now },
)

-- `FailDelivery`.
unfoldable pub fail_delivery : Delivery → Health → Time → Bool → String → Time → Delivery × Health
fail_delivery d h next_try give_up reason now = (
  record d {
    attempts = d.attempts + 1;
    status = if give_up then failed else d.status;
    next_try_at = if give_up then d.next_try_at else next_try;
  },
  record h { last_error = some reason; last_error_at = some now },
)

-- `PurgeDeliveries`: the rows left, and how many were dropped.
purge_deliveries : List Delivery → Time → List Delivery × ℕ
purge_deliveries rows before = (
  select (λ (d : Delivery). not (ltb d.created_at before)) rows,
  length (select (λ (d : Delivery). ltb d.created_at before) rows),
)
