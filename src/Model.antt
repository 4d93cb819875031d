-- ===== src/Model.antt =====
-- The rows of backend/internal/model that the models share. Times are numbers; a nullable column
-- is an `Option`, and a JSON column its text.
use sentinel_api_platform.Prelude.{ℕ, ℤ, String, Bool, List, Option}
use sentinel_api_platform.Json.{Json}

pub record MockRule : Type 0 where
  pub id : String
  pub api_id : String
  pub name : String
  pub match_json : String
  pub response_status : ℤ
  pub response_headers_json : String
  pub response_body_json : String
  pub extractor_json : String
  pub priority : ℤ
  pub delay_ms : ℤ
  pub enabled : Bool
  pub hit_count : ℕ

pub record Api : Type 0 where
  pub id : String
  pub project_id : String
  pub name : String
  pub method : String
  pub path : String
  pub operation_id : String
  pub tags_json : String
  pub request_schema_json : String
  pub response_schema_json : String
  pub spec_json : String
  pub source : String
  pub deprecated : Bool

pub record Project : Type 0 where
  pub id : String
  pub name : String
  pub slug : String
  pub owner_id : String
  pub description : String

pub record ProjectMember : Type 0 where
  pub project_id : String
  pub user_id : String
  pub role : String

pub record User : Type 0 where
  pub id : String
  pub email : String
  pub password_hash : String
  pub display_name : String
  pub role : String
  pub is_active : Bool

pub record RefreshToken : Type 0 where
  pub id : String
  pub user_id : String
  pub token_hash : String
  pub expires_at : ℕ
  pub revoked_at : Option ℕ
  pub ip : String
  pub user_agent : String

pub record TestCase : Type 0 where
  pub id : String
  pub project_id : String
  pub method : String
  pub path : String
  pub headers_json : Option String
  pub body_json : Option String
  pub expected_status : ℤ
  pub expected_body_json : Option String
  pub expected_body_match : String
  pub expected_body_pattern : String
  pub assertions_json : Option String

pub record TestRun : Type 0 where
  pub id : String
  pub project_id : String
  pub name : String
  pub status : String
  pub mode : String
  pub concurrency : ℤ
  pub target_base_url : String
  pub total : ℕ
  pub passed : ℕ
  pub failed : ℕ
  pub errored : ℕ
  pub skipped : ℕ
  pub started_at : Option ℕ
  pub finished_at : Option ℕ
  pub triggered_by : Option String
  pub trigger_type : String

-- A value of the `map[string]any` that an update is given: a string, a Boolean, a `[]byte`, or a
-- value of a decoded body.
pub data Value : Type 0 where
  text : String → Value
  flag : Bool → Value
  bytes : String → Value
  decoded : Json → Value

abbrev pub Columns : Type 0
Columns = List (String × Value)
