-- ===== src/Gateway/Login.antt =====
-- Signing in with a wallet, in apps/api-gateway/src/main.py: `get_nonce_v1` and `login_siwe_v1`.
use Prim.Native.String.{String, [], ◌∷◌}
use big_x.Base.{ℕ, Bool, false, not, ◌&&◌, Option, none, some, List, if◌then◌else◌}
use big_x.Base.Exec.{ok, err, Exec, pure, or_raise, ◌>>=◌, ◌>>◌}
use big_x.Resilience.Cache.{lookup, insert}
use package.text.Mathlib.Text.{◌==◌, starts_with}

pub record User : Type 0 where
  pub id : String
  pub role : String

-- `app.state.nonces`, and the table of users by wallet.
pub record State : Type 0 where
  pub nonces : List (String × String)
  pub users : List (String × User)

pub data HttpError : Type 0 where
  http : ℕ → String → HttpError

abbrev pub Action : Type 0 → Type 0
Action A = Exec HttpError State A

-- `str.lower`, `str.strip`, `message.split("\n")`, and the wallet that signed a message, if any.
pub record Env : Type 0 where
  pub lower : String → String
  pub strip : String → String
  pub lines : String → List String
  pub recover_message : String → String → Option String

-- What a token says of its user.
pub record SessionUser : Type 0 where
  pub user_id : String
  pub wallet_address : String
  pub role : String

-- `line.split(":", 1)[1]`, of a line with a colon
abbrev pub after_colon : String → String
after_colon [] = []
after_colon (c ∷ s) = let rest = after_colon s in if starts_with (c ∷ s) ":" then s else rest

abbrev is_empty : String → Bool
is_empty s = s == ""

module _ (env : Env) where
  -- `token_urlsafe` gives the nonce; the dictionary of nonces is a new one.
  unfoldable pub get_nonce_v1 : String → String → Action String
  get_nonce_v1 fresh address s =
      if is_empty (env.lower address)
      then (err (http 400 "Missing address parameter"), s)
      else (ok fresh, record s { nonces = insert (env.lower address) fresh List.[] })

  -- The `for` loop over the lines.
  abbrev pub nonce_in : List String → String
  nonce_in List.[] = ""
  nonce_in (List.◌∷◌ line rest) =
      let later = nonce_in rest in
      if starts_with line "Nonce:" then env.strip (after_colon line) else later

  abbrev is_nonce : Option String → String → Bool
  is_nonce none nonce = false
  is_nonce (some n) nonce = n == nonce

  abbrev pub is_expected : String → String → State → Bool
  is_expected wallet nonce s = not (is_empty nonce) && is_nonce (lookup wallet s.nonces) nonce

  abbrev check_nonce : String → String → Action (Unit {0})
  check_nonce wallet message s =
      if is_expected wallet (nonce_in (env.lines message)) s
      then (ok tt, s)
      else (err (http 401 "Invalid or expired nonce"), s)

  -- The row of the wallet, which is added with the database's new id if there is none.
  abbrev find_or_add : String → String → Action User
  find_or_add new_id wallet s = elim (lookup wallet s.users) [
    | some u ↦ (ok u, s)
    | none ↦ (
      ok (record { id = new_id; role = "user" }),
      record s { users = insert wallet (record { id = new_id; role = "user" }) s.users },
    )
  ]

  abbrev session_of : String → User → SessionUser
  session_of wallet u = record { user_id = u.id; wallet_address = wallet; role = u.role }

  -- The user that the token is for.
  unfoldable pub login_siwe_v1 : String → String → String → Action SessionUser
  login_siwe_v1 new_id message signature = do
    recovered ← or_raise (env.recover_message message signature) (http 401 "Invalid signature")
    check_nonce (env.lower recovered) message
    u ← find_or_add new_id (env.lower recovered)
    pure (session_of (env.lower recovered) u)
