-- ===== src/Backend/Siwe.antt =====
-- `store_nonce`, `verify_and_consume_nonce` and `verify_siwe` of backend_service_layer/main.py. The
-- recovery of a signer and Python's texts are the record SiweEnv; the exceptions are the HTTP errors.
use big_x.Base.{
  String, Bool, true, false, ◌||◌, not, Option, none, some, List, [], ◌∷◌, if◌then◌else◌,
}
use big_x.Base.Exec.{Result, ok, err, Exec}
use big_x.Resilience.Cache.{lookup, insert, remove}
use package.text.Mathlib.Text.{◌==◌, starts_with}

-- `recover_message`, where `none` is any exception; `lower`, `split` at line ends, and the text after
-- the first colon of a line, stripped.
pub record SiweEnv : Type 0 where
  pub recover : String → String → Option String
  pub lower : String → String
  pub lines : String → List String
  pub after_colon : String → String

pub record SiweLoginRequest : Type 0 where
  pub message : String
  pub signature : String

pub data SiweError : Type 0 where
  invalid_signature missing_nonce invalid_nonce : SiweError

-- `_nonces`
abbrev pub Nonces : Type 0
Nonces = List (String × String)

module _ (env : SiweEnv) where
  unfoldable pub store_nonce : String → String → Nonces → Nonces
  store_nonce address nonce nonces = insert (env.lower address) nonce nonces

  -- `not stored or stored != nonce`
  abbrev pub is_refused : Option String → String → Bool
  is_refused none nonce = true
  is_refused (some stored) nonce = stored == "" || not (stored == nonce)

  unfoldable pub verify_and_consume_nonce : String → String → Nonces → Bool × Nonces
  verify_and_consume_nonce address nonce nonces =
      if is_refused (lookup (env.lower address) nonces) nonce
      then (false, nonces)
      else (true, remove (env.lower address) nonces)

  -- The value of the first line that begins with "Nonce:", and nothing without one.
  abbrev pub siwe_nonce : List String → String
  siwe_nonce [] = ""
  siwe_nonce (line ∷ more) =
      if starts_with line "Nonce:" then env.after_colon line else siwe_nonce more

  abbrev pub with_consumed :
      String → String → Bool × Nonces → Result SiweError (String × String) × Nonces
  with_consumed address nonce (true, nonces) = (ok (address, nonce), nonces)
  with_consumed address nonce (false, nonces) = (err invalid_nonce, nonces)

  abbrev pub with_signer : Option String → String → Exec SiweError Nonces (String × String)
  with_signer none nonce nonces = (err invalid_signature, nonces)
  with_signer (some address) nonce nonces =
      if nonce == ""
      then (err missing_nonce, nonces)
      else with_consumed address nonce (verify_and_consume_nonce address nonce nonces)

  unfoldable pub verify_siwe : SiweLoginRequest → Exec SiweError Nonces (String × String)
  verify_siwe login =
      with_signer (env.recover login.message login.signature) (siwe_nonce (env.lines login.message))
