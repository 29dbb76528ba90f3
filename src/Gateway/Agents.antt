-- ===== src/Gateway/Agents.antt =====
-- The endpoints of apps/api-gateway/src/main.py that change an agent, each behind the same check of
-- its owner, and the agents table of db/models/agents.py.
use big_x.Base.{ℕ, String, Bool, true, not, Option, none, some, List, if◌then◌else◌}
use big_x.Base.Exec.{Result, ok, err, Exec, pure, raise, or_raise, ◌>>=◌, ◌>>◌}
use big_x.Resilience.Cache.{lookup, insert}
use package.text.Mathlib.Text.{◌==◌}

pub data LifecycleState : Type 0 where
  created provisioning active suspended deprecated archived : LifecycleState

-- A value of `owner_id`: what the database returns is a `uuid.UUID`, what the gateway assigns a `str`.
pub data OwnerId : Type 0 where
  uuid str : String → OwnerId

-- `agent.owner_id != user.user_id`, for a user's id that is a `str`: Python never equates the types.
abbrev pub differs : OwnerId → String → Bool
differs (uuid u) user_id = true
differs (str s) user_id = not (s == user_id)

pub record Agent : Type 0 where
  pub owner_id : OwnerId
  pub name : String
  pub persona : Option String
  pub model_version : String
  pub metadata_uri : String
  pub endpoint : Option String
  pub capabilities : ℕ
  pub state : LifecycleState
  pub last_synced_at : Option ℕ

pub record UpdateAgentRequest : Type 0 where
  pub name : Option String
  pub persona : Option String
  pub model_version : Option String
  pub metadata_uri : Option String
  pub endpoint : Option String
  pub capabilities : Option ℕ

-- The rows by the text of their ids.
abbrev pub Db : Type 0
Db = List (String × Agent)

pub data HttpError : Type 0 where
  http : ℕ → String → HttpError
  unhandled : String → HttpError

abbrev pub Action : Type 0 → Type 0
Action A = Exec HttpError Db A

-- Python's `uuid.UUID`, with the text of its error, and what a commit does: nothing, or its error.
pub record Env : Type 0 where
  pub parse_uuid : String → Result String String
  pub commit_error : Db → Option String
  pub utcnow : ℕ

abbrev parsed : Result String String → Action String
parsed (ok u) = pure u
parsed (err e) = raise (unhandled e)

-- `session.commit()` of one changed row; a commit that fails is rolled back
abbrev commit_row : Option String → Db → Action (Unit {0})
commit_row none db' db = (ok tt, db')
commit_row (some e) db' db = (err (unhandled e), db)

module _ (env : Env) where
  abbrev pub save : String → Agent → Action (Unit {0})
  save u agent db = commit_row (env.commit_error (insert u agent db)) (insert u agent db) db

  abbrev pub check_owner : Agent → String → Action (Unit {0})
  check_owner agent user_id =
      if differs agent.owner_id user_id then raise (http 403 "Not authorized") else pure tt

  abbrev pub find : String → Action Agent
  find u db = or_raise (lookup u db) (http 404 "Agent not found") db

  -- What the endpoints share: the id is parsed, the row is read, its owner checked, the change
  -- written and committed.
  unfoldable pub change : (Agent → Agent) → String → String → Action Agent
  change f agent_id user_id = do
    u ← parsed (env.parse_uuid agent_id)
    agent ← find u
    check_owner agent user_id
    save u (f agent)
    pure (f agent)

abbrev or_keep : {A : Type 0} → Option A → A → A
or_keep none x = x
or_keep (some y) x = y

abbrev or_keep_some : {A : Type 0} → Option A → Option A → Option A
or_keep_some none x = x
or_keep_some (some y) x = some y

-- The assignments of the fields that the request has.
abbrev pub assign : UpdateAgentRequest → Agent → Agent
assign r a = record a {
  name = or_keep r.name a.name;
  persona = or_keep_some r.persona a.persona;
  model_version = or_keep r.model_version a.model_version;
  metadata_uri = or_keep r.metadata_uri a.metadata_uri;
  endpoint = or_keep_some r.endpoint a.endpoint;
  capabilities = or_keep r.capabilities a.capabilities;
}

-- `except Exception`, of the endpoints that have it
abbrev pub bad_gateway : Result HttpError Agent × Db → Result HttpError Agent × Db
bad_gateway (ok a, db) = (ok a, db)
bad_gateway (err (http code detail), db) = (err (http code detail), db)
bad_gateway (err (unhandled e), db) = (err (http 502 e), db)

module _ (env : Env) where
  unfoldable pub update_agent : String → UpdateAgentRequest → String → Action Agent
  update_agent agent_id payload user_id db =
      bad_gateway (change env (assign payload) agent_id user_id db)

  unfoldable pub delete_agent : String → String → Action Agent
  delete_agent agent_id user_id db =
      bad_gateway (change env (λ a. record a { state = archived }) agent_id user_id db)

  unfoldable pub update_studio_agent_v1 : String → UpdateAgentRequest → String → Action Agent
  update_studio_agent_v1 agent_id payload = change env (assign payload) agent_id

  unfoldable pub publish_studio_agent_v1 : String → String → Action Agent
  publish_studio_agent_v1 = change env (λ a. record a { state = active })

  unfoldable pub unpublish_studio_agent_v1 : String → String → Action Agent
  unpublish_studio_agent_v1 = change env (λ a. record a { state = archived })

  unfoldable pub refresh_agent : String → String → Action Agent
  refresh_agent agent_id user_id db =
      bad_gateway
        (change env (λ a. record a { last_synced_at = some env.utcnow }) agent_id user_id db)
