-- ===== src/Guardrail/Checks.antt =====
-- abuse_detection.py, policy_check.py and the endpoint of main.py. Redis is the record Env, whose
-- answers may depend on the log of all calls before.
use Prim.Native.String.{String, [], ◌∷◌, ◌++◌ as append}
use big_x.Base.{
  ℕ, suc, ◌-◌, Bool, true, false, ◌&&◌, not, Option, none, some, List, ltb, leb, if◌then◌else◌,
}
use big_x.Base.Text.{contains, elem}
use big_x.Base.Exec.{Result, ok, err, Exec, pure, lift, ◌>>=◌, ◌>>◌}
use big_x.Guardrail.Sanitize.{Texts, size, sanitize, check_intent}
use package.text.Mathlib.Text.{◌==◌}

pub data Call : Type 0 where
  zremrangebyscore : String → ℕ → ℕ → Call
  zcard : String → Call
  -- the member is the text of the time and of the count
  zadd : String → ℕ × ℕ → ℕ → Call
  expire : String → ℕ → Call

abbrev pub Trace : Type 0
Trace = List Call

abbrev pub Action : Type 0 → Type 0
Action A = Exec String Trace A

pub record Env : Type 0 where
  pub texts : Texts
  pub now : Trace → ℕ
  -- the error of a call, if it raises, and the answer of `zcard`
  pub fails : Trace → Call → Option String
  pub count : Trace → String → ℕ

pub record CheckResult : Type 0 where
  pub allowed : Bool
  pub reason : Option String

abbrev pub fine : CheckResult
fine = record { allowed = true; reason = none }

abbrev pub blocked : String → CheckResult
blocked e = record { allowed = false; reason = some e }

-- `len(set(text))`
abbrev pub distinct : String → ℕ
distinct [] = 0
distinct (c ∷ s) = let n = distinct s in if contains (c ∷ []) s then n else suc n

-- `_check_repeated_content`
abbrev pub is_repetitive : Env → String → Bool
is_repetitive env message =
    ltb 20 (size (env.texts.strip message)) && leb (distinct (env.texts.strip message)) 3

unfoldable pub check_repeated_content : Env → String → CheckResult
check_repeated_content env message =
    if is_repetitive env message
    then blocked "Message flagged as low-quality/repetitive content"
    else fine

abbrev answered : Option String → Result String (Unit {0})
answered none = ok tt
answered (some e) = err e

abbrev pub rate_key : String → String
rate_key user_id = append "abuse:rate:" user_id

abbrev pub max_requests_per_window : ℕ
max_requests_per_window = 20

module _ (env : Env) where
  abbrev call : Call → Action (Unit {0})
  call c tr = (answered (env.fails tr c), List.◌∷◌ c tr)

  abbrev card : String → Action ℕ
  card key tr = (call (zcard key) >> pure (env.count tr key)) tr

  abbrev register : String → ℕ → ℕ → Action CheckResult
  register key now request_count = do
    call (zadd key (now, request_count) now)
    call (expire key 60)
    pure fine

  abbrev admit : String → ℕ → ℕ → Action CheckResult
  admit key now request_count =
      if leb max_requests_per_window request_count
      then pure (blocked "Too many requests — please slow down")
      else register key now request_count

  -- `_check_rate_limit`, with the defaults of 20 requests in 60 seconds
  unfoldable pub check_rate_limit : String → Action CheckResult
  check_rate_limit user_id tr =
      (do
        call (zremrangebyscore (rate_key user_id) 0 (env.now tr - 60))
        request_count ← card (rate_key user_id)
        admit (rate_key user_id) (env.now tr) request_count)
        tr

  abbrev then_content : String → CheckResult → Action CheckResult
  then_content message rate =
      pure (if rate.allowed then check_repeated_content env message else rate)

  -- `AbuseDetectionService.check`
  unfoldable pub check_abuse : String → String → Action CheckResult
  check_abuse user_id message = do rate ← check_rate_limit user_id; then_content message rate

-- `RESTRICTED_ACTION_TYPES_BY_TIER.get(tier, set())` and `MAX_DAILY_ACTIONS_BY_TIER.get(tier, 10)`
abbrev pub restricted_action_types : String → List String
restricted_action_types tier =
    if tier == "free" then List.◌∷◌ "bridge" (List.◌∷◌ "lending" List.[]) else List.[]

abbrev pub max_daily_actions : String → ℕ
max_daily_actions tier =
    if tier == "free"
    then 10
    else if tier == "pro"
    then 100
    else if tier == "enterprise"
    then 10000
    else 10

pub record User : Type 0 where
  pub is_active : Bool
  pub tier : String

-- `async with` on what the factory of sessions returns
abbrev pub no_context_manager : String
no_context_manager = "'NoneType' object does not support the asynchronous context manager protocol"

abbrev with_session : {A : Type 0} → Option (Unit {0}) → A → Result String A
with_session none a = err no_context_manager
with_session (some session) a = ok a

-- `_get_user` and `_get_daily_action_count`: within a session both return constants.
abbrev get_user : Option (Unit {0}) → String → Result String (Option User)
get_user session user_id = with_session session (some (record { is_active = true; tier = "free" }))

abbrev get_daily_action_count : Option (Unit {0}) → String → Result String ℕ
get_daily_action_count session user_id = with_session session 0

abbrev within_limit : User → ℕ → CheckResult
within_limit user daily_count =
    if leb (max_daily_actions user.tier) daily_count
    then blocked "Daily action limit reached"
    else fine

-- `PolicyCheckService.check`, from the user on.
abbrev policy_for : Option (Unit {0}) → String → String → Option User → Action CheckResult
policy_for session user_id action_type none = pure (blocked "User not found")
policy_for session user_id action_type (some user) =
    if not user.is_active
    then pure (blocked "Account is suspended")
    else if elem action_type (restricted_action_types user.tier)
    then pure (blocked (append "'" (append action_type "' requires a higher account tier")))
    else (do
      daily_count ← lift (get_daily_action_count session user_id)
      pure (within_limit user daily_count))

-- `session` is what `db_session_factory()` returns.
unfoldable pub check_policy : Option (Unit {0}) → String → String → Action CheckResult
check_policy session user_id action_type = do
  user ← lift (get_user session user_id)
  policy_for session user_id action_type user

pub record GuardrailResponse : Type 0 where
  pub allowed : Bool
  pub status : String
  pub reason : Option String

abbrev pub blocked_response : Option String → GuardrailResponse
blocked_response reason = record { allowed = false; status = "blocked"; reason = reason }

abbrev pub allowed_response : GuardrailResponse
allowed_response = record { allowed = true; status = "allowed"; reason = none }

abbrev after_policy : CheckResult → GuardrailResponse
after_policy policy =
    if not policy.allowed then blocked_response policy.reason else allowed_response

-- The service is built with `db_session_factory=lambda: None`.
abbrev after_abuse : String → CheckResult → Action GuardrailResponse
after_abuse agent_id abuse =
    if not abuse.allowed
    then pure (blocked_response abuse.reason)
    else (do policy ← check_policy none agent_id "defi_action"; pure (after_policy policy))

-- `check_guardrails`
unfoldable pub check_guardrails : Env → String → String → Action GuardrailResponse
check_guardrails env agent_id message =
    let sanitized = sanitize env.texts message in
    let intent = check_intent env.texts sanitized in
    if not intent.allowed
    then pure (blocked_response intent.reason)
    else (do abuse ← check_abuse env agent_id sanitized; after_abuse agent_id abuse)
