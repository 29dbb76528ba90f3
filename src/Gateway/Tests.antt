-- ===== src/Gateway/Tests.antt =====
-- Tests of the gateway, and its theorems at concrete inputs.
use big_x.Base.{◌≡◌, ◌≢◌, refl, some, none, [], ◌∷◌, ℕ, String, List}
use big_x.Gateway.RateLimit.{Limiter, serve}
use big_x.Gateway.RateLimitLaws.{pass_all, fresh_state, serve-pass_all}
use big_x.Base.{arith, Bool-cases, inl, inr}
use big_x.Base.Exec.{ok}
use big_x.Resilience.Cache.{lookup, insert}
use big_x.Gateway.Agents
use big_x.Gateway.Agents.{Agent, OwnerId, uuid, str, LifecycleState, Db, HttpError}
use big_x.Gateway.AgentsLaws.{Operation, perform, OnlyOwn, Loaded, perform-OnlyOwn}
use big_x.Gateway.Login
use big_x.Gateway.Login.{SessionUser, get_nonce_v1, login_siwe_v1}
use big_x.Gateway.LoginLaws.{FirstNonce, login_siwe_v1-Signed}
use package.text.Mathlib.Text.{◌==◌}

abbrev two_a_minute : Limiter
two_a_minute = record { limit = 2; window_seconds = 60 }

-- The third request comes too soon, and the fourth after the first has left the window.
abbrev requests : List (String × ℕ)
requests = ("a", 10) ∷ ("a", 20) ∷ ("b", 21) ∷ ("a", 70) ∷ ("a", 71) ∷ []

passed : pass_all two_a_minute requests [] ≡ (("a", 10) ∷ ("a", 20) ∷ ("b", 21) ∷ ("a", 71) ∷ [])
passed = refl

serve-pass_all_example :
    (serve two_a_minute requests fresh_state).called ≡ pass_all two_a_minute requests []
serve-pass_all_example =
    serve-pass_all two_a_minute requests
      (omega arith, (omega arith, (omega arith, (omega arith, (omega arith, tt)))))

-- The owner of the one agent is user "u".
abbrev agents_env : Agents.Env
agents_env = record { parse_uuid = λ t. ok t; commit_error = λ db. none; utcnow = 5 }

abbrev owned : OwnerId → Agent
owned o = record {
  owner_id = o;
  name = "trader";
  persona = none;
  model_version = "default";
  metadata_uri = "ipfs://a";
  endpoint = none;
  capabilities = 3;
  state = LifecycleState.created;
  last_synced_at = none;
}

abbrev table : Db
table = ("a", owned (uuid "u")) ∷ []

table-Loaded : Loaded table
unfolding lookup
table-Loaded u a e = elim (Bool-cases ("a" == u)) [
  | inl here ↦ ("u", ground arith)
  | inr there ↦ absurd (ground arith)
]

perform-OnlyOwn_example :
    OnlyOwn "u"
      (("a", owned (str "u")) ∷ [])
      (perform agents_env Operation.publish "a" "u" (("a", owned (str "u")) ∷ [])).1
perform-OnlyOwn_example =
    perform-OnlyOwn agents_env Operation.publish "a" "u" (("a", owned (str "u")) ∷ [])

-- Every message is signed by the wallet "w" and has the nonce "n".
abbrev login_env : Login.Env
login_env = record {
  lower = λ t. t;
  strip = λ t. t;
  lines = λ message. message ∷ [];
  recover_message = λ message signature. some "w";
}

abbrev invited : Login.State
invited = record { nonces = ("w", "n") ∷ []; users = [] }

abbrev signed_up : Login.State
signed_up = record {
  nonces = ("w", "n") ∷ [];
  users = ("w", record { id = "1"; role = "user" }) ∷ [];
}

abbrev first_user : SessionUser
first_user = record { user_id = "1"; wallet_address = "w"; role = "user" }

login_siwe_v1-Signed_example :
    (w : String) × (nonce : String) × (some "w" ≡ some w)
    × ("w" ≡ w)
    × (nonce ≢ "")
    × FirstNonce login_env nonce ("Nonce:n" ∷ [])
    × (lookup w invited.nonces ≡ some nonce)
unfolding login_siwe_v1 lookup insert
login_siwe_v1-Signed_example =
    login_siwe_v1-Signed login_env "1" "Nonce:n" "0x" first_user invited signed_up refl
