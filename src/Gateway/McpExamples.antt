-- ===== src/Gateway/McpExamples.antt =====
-- The HTTP routes of the Gateway on small inputs.
use mcphub.Prelude.{
  ◌≡◌, refl, true, none, some, inr, List, [], ◌∷◌, Text, str, eqb, lookup, split, trim_byte,
  trim_left_byte, if◌then◌else◌, has_prefix,
}
use mcphub.Protocol.{Frame}
use mcphub.Discovery.Types.{Group}
use mcphub.Postgres.{Database}
use mcphub.Postgres.Auth.{new_token, access_type, is_valid, set_token_groups, insert_groups}
use mcphub.Gateway.RateLimit.{LocalLimiter}
use mcphub.Gateway.Mcp.{Request, Setup, forwards, handle_mcp}
use mcphub.Gateway.Mcp.Accepts.{Accepts, Carries, handle_mcp_iff}
use mcphub.Gateway.TokenGroups.{Groups, handle_token_groups, put_groups}
use mcphub.Gateway.TokenGroups.Stored.{IsWanted, Answers, group_store, put-get}

abbrev setup : Setup
setup = record {
  validate = none;
  hash = λ t. t;
  require_route_auth = [];
  rate_env = none;
  remote = none;
  sessions = (str "t:c", 4) ∷ [];
  id = str "1";
  now = 9;
}

abbrev request : Request
request = record {
  path = str "/mcp/t/c";
  method = str "POST";
  header = λ k. if eqb k (str "Accept") then str "x" else [];
  body = inr (str "{}");
}

abbrev limiter : LocalLimiter
limiter = record { windows = [] }

handle_mcp_iff_example :
    ((f : Frame)
      → (handle_mcp setup request limiter).0 ≡ forwards 4 f
      → (tenant : Text) × (component : Text) × (payload : Text) × Accepts setup request limiter 4
          tenant component payload
        × Carries (str "1") request component payload f)
    × ((tenant component payload : Text)
        → Accepts setup request limiter 4 tenant component payload
        → (f : Frame) × ((handle_mcp setup request limiter).0 ≡ forwards 4 f)
          × Carries (str "1") request component payload f)
handle_mcp_iff_example = handle_mcp_iff setup request limiter 4

abbrev group : Group
group = record { id = str "g"; name = str "g"; description = []; tags = []; is_default = true }

abbrev tables : Database
tables = record {
  tenants = str "t" ∷ [];
  device_codes = [];
  auth_tokens = (str "a", new_token access_type (str "t") (str "c") 100) ∷ [];
  token_groups = [];
  tool_groups = (str "t", (str "g", group) ∷ []) ∷ [];
  tool_catalog = [];
  group_tools = [];
  drawn = 0;
  plan = λ rs. [];
}

abbrev body : Groups
body = record { default_group_id = str "g"; group_ids = [] }

put-get_example :
    (wanted : List Text) × IsWanted body wanted
    × Answers
        (handle_token_groups
          (some group_store)
          (str "GET")
          (str "/api/admin/tokens/a/groups")
          (str "t")
          none
          8
          (handle_token_groups
            (some group_store)
            (str "PUT")
            (str "/api/admin/tokens/a/groups")
            (str "t")
            (some body)
            7
            tables).1).0
        (str "t")
        wanted
unfolding put_groups handle_token_groups group_store set_token_groups insert_groups split trim_byte
    trim_left_byte has_prefix lookup is_valid eqb
put-get_example =
    put-get (str "/api/admin/tokens/a/groups") (str "t") (str "a") body 7 8
      (new_token access_type (str "t") (str "c") 100) tables refl refl refl refl
