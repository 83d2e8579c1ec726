-- ===== src/Store/Limits.antt =====
-- internal/store/limits.go: an operator's rate limit.
use tg_control_api_server.Prelude.{ℕ, String, Bool, Option, List}

-- Times are nanoseconds since Go's zero time, 0001-01-01 00:00 UTC.
abbrev pub Time : Type 0
Time = ℕ

pub record Limit : Type 0 where
  pub id : String
  pub level : String
  pub kind : Option String
  pub session_id : Option String
  pub token_id : Option String
  pub methods : List String
  pub max_calls : ℕ
  pub per : String
  pub label : Option String
  pub enabled : Bool
  pub created_at : Time
