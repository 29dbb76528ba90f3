-- ===== src/Gateway/Rbac.antt =====
-- apps/api-gateway/src/middleware/rbac.py: the permissions of the roles and of the endpoints.
use big_x.Base.{String, Bool, ◌&&◌, ◌||◌, Option, none, some, List, [], ◌∷◌, if◌then◌else◌}
use big_x.Base.Text.{elem}
use package.text.Mathlib.Text.{◌==◌}

pub data Role : Type 0 where
  user agent admin : Role

abbrev pub role_permissions : Role → List String
role_permissions user = "agent:read" ∷ "trade:view" ∷ "wallet:view" ∷ "policy:view" ∷ []
role_permissions agent =
    "agent:create" ∷ "agent:read" ∷ "agent:update" ∷ "agent:execute" ∷ "trade:execute"
    ∷ "trade:view" ∷ "wallet:view" ∷ "policy:view" ∷ "policy:update" ∷ []
role_permissions admin = "*" ∷ []

pub record Endpoint : Type 0 where
  pub method : String
  pub path : String
  pub permission : String

abbrev endpoint : String → String → String → Endpoint
endpoint m p perm = record { method = m; path = p; permission = perm }

abbrev pub endpoints : List Endpoint
endpoints =
    endpoint "POST" "/api/agents" "agent:create"
    ∷ endpoint "GET" "/api/agents" "agent:read"
    ∷ endpoint "POST" "/api/trades" "trade:execute"
    ∷ endpoint "GET" "/api/trades" "trade:view"
    ∷ endpoint "GET" "/api/wallet" "wallet:view"
    ∷ endpoint "POST" "/api/wallet" "wallet:manage"
    ∷ endpoint "GET" "/api/policies" "policy:view"
    ∷ endpoint "PUT" "/api/policies" "policy:update"
    ∷ []

-- `ENDPOINTS.get((method, path))`
unfoldable pub permission_of : List Endpoint → String → String → Option String
permission_of [] m p = none
permission_of (e ∷ es) m p =
    if e.method == m && e.path == p then some e.permission else permission_of es m p

-- `Role(...)`, which raises a `ValueError` on other texts; the header is "user" if it is missing
abbrev named_role : String → Option Role
named_role name =
    if name == "user"
    then some user
    else if name == "agent"
    then some agent
    else if name == "admin"
    then some admin
    else none

abbrev pub get_role : Option String → Option Role
get_role none = some user
get_role (some name) = named_role name

abbrev pub has_permission : Role → String → Bool
has_permission role perm = elem "*" (role_permissions role) || elem perm (role_permissions role)

pub data Verdict : Type 0 where
  called_next denied unknown_role : Verdict

abbrev decide : Option Role → String → Verdict
decide none perm = unknown_role
decide (some role) perm = if has_permission role perm then called_next else denied

abbrev for_permission : Option String → Option String → Verdict
for_permission none header = called_next
for_permission (some perm) header = decide (get_role header) perm

-- `rbac_middleware`, on the method, the path and the header `X-User-Role`
unfoldable pub rbac_middleware : String → String → Option String → Verdict
rbac_middleware method path header =
    if method == "OPTIONS"
    then called_next
    else for_permission (permission_of endpoints method path) header
