-- ===== src/Chain/Registry.antt =====
-- `AgentRegistryClient` of services/shared/src/agent_registry_client.py over the contract client: the
-- checks of the arguments, the writes and the reads. Its `send` is the text of services/shared/src,
-- which differs from the newer one in its log lines only.
use big_x.Base.{
  ℕ, String, Bool, true, false, ◌||◌, not, Option, none, some, List, [], ◌∷◌, length, ◌==◌,
  if◌then◌else◌,
}
use big_x.Base.Int.{ℤ, pos, negsuc}
use big_x.Base.Exec.{err, Exec}
use big_x.Guardrail.Sanitize.{size}
use big_x.Chain.Web3.{Web3}
use big_x.Chain.Client.{ClientOf, Config, ClientError, wrap}
use big_x.Chain.Calls.{shared_call}
use big_x.Chain.Sends.{Sent, send}
use package.text.Mathlib.Text.{starts_with, ◌==◌ as same_text}

-- An argument of a contract's function.
pub data Arg : Type 0 where
  int : ℤ → Arg
  str : String → Arg
  bytes : List ℕ → Arg

-- `InputValidationError`, with what was wrong.
pub data InputError : Type 0 where
  bad_nft_id bad_capabilities : ℤ → InputError
  bad_address : String → InputError
  bad_salt : ℕ → InputError
  empty_name : InputError

pub data RegistryError : Type 0 where
  invalid : InputError → RegistryError
  client : ClientError → RegistryError

-- The writes of the registry with their arguments.
pub data Request : Type 0 where
  register_agent :
      (nft_id : ℤ) (owner name persona : String) (capabilities : ℤ)
      (model_version metadata_uri endpoint : String)
      → Request
  provision_account : (nft_id : ℤ) (salt : List ℕ) → Request
  activate suspend : (nft_id : ℤ) → Request
  grant_capability : (nft_id : ℤ) (capability_bit : ℤ) → Request
  sync_owner : (nft_id : ℤ) (new_owner : String) → Request

abbrev pub is_negative : ℤ → Bool
is_negative (pos n) = false
is_negative (negsuc n) = true

-- A check: `none` is passed.
abbrev pub Check : Type 0
Check = Option InputError

abbrev pub validate_nft_id : ℤ → Check
validate_nft_id i = if is_negative i then some (bad_nft_id i) else none

abbrev pub validate_address : String → Check
validate_address a =
    if not (starts_with a "0x") || not (size a == 42) then some (bad_address a) else none

abbrev pub validate_capabilities : ℤ → Check
validate_capabilities i = if is_negative i then some (bad_capabilities i) else none

-- The first check that fails.
abbrev pub first_failure : List Check → Check
first_failure [] = none
first_failure (none ∷ cs) = first_failure cs
first_failure (some e ∷ cs) = some e

abbrev pub validate_salt : List ℕ → Check
validate_salt salt = if length salt == 32 then none else some (bad_salt (length salt))

module _ (strip : String → String) where
  abbrev pub validate_name : String → Check
  validate_name name = if same_text (strip name) "" then some empty_name else none

  -- The checks of a request, in the order in which they are made.
  unfoldable pub checks_of : Request → Check
  checks_of (register_agent i owner name persona capabilities v u e) = first_failure (
      validate_nft_id i
      ∷ validate_address owner
      ∷ validate_capabilities capabilities
      ∷ validate_name name
      ∷ [])
  checks_of (provision_account i salt) = first_failure (validate_nft_id i ∷ validate_salt salt ∷ [])
  checks_of (activate i) = validate_nft_id i
  checks_of (suspend i) = validate_nft_id i
  checks_of (grant_capability i bit) =
      first_failure (validate_nft_id i ∷ validate_capabilities bit ∷ [])
  checks_of (sync_owner i owner) = first_failure (validate_nft_id i ∷ validate_address owner ∷ [])

-- The contract's function and its arguments.
abbrev pub function_of : Request → String
function_of (register_agent _ _ _ _ _ _ _ _) = "registerAgent"
function_of (provision_account _ _) = "provisionAccount"
function_of (activate _) = "activate"
function_of (suspend _) = "suspend"
function_of (grant_capability _ _) = "grantCapability"
function_of (sync_owner _ _) = "syncOwner"

abbrev pub args_of : Request → List Arg
args_of (register_agent i owner name persona capabilities version uri endpoint) =
    int i
    ∷ str owner
    ∷ str name
    ∷ str persona
    ∷ int capabilities
    ∷ str version
    ∷ str uri
    ∷ str endpoint
    ∷ []
args_of (provision_account i salt) = int i ∷ bytes salt ∷ []
args_of (activate i) = int i ∷ []
args_of (suspend i) = int i ∷ []
args_of (grant_capability i bit) = int i ∷ int bit ∷ []
args_of (sync_owner i owner) = int i ∷ str owner ∷ []

abbrev pub encode_all {ℓ} : {V : Type ℓ} → (Arg → V) → List Arg → List V
encode_all encode [] = []
encode_all encode (a ∷ as_) = encode a ∷ encode_all encode as_

module _ {W : Type 0} (node : Web3 W) (config : Config) (strip : String → String)
    (encode : Arg → node.Value) where
  abbrev pub through :
      {A : Type 0} → Exec ClientError (ClientOf node) A → Exec RegistryError (ClientOf node) A
  through act c = (wrap client (act c).0, (act c).1)

  abbrev pub guarded :
      {A : Type 0}
      → Check
      → Exec RegistryError (ClientOf node) A
      → Exec RegistryError (ClientOf node) A
  guarded none act c = act c
  guarded (some e) act c = (err (invalid e), c)

  -- Each of the writes
  unfoldable pub submit_request : Request → Exec RegistryError (ClientOf node) Sent
  submit_request q =
      guarded (checks_of strip q)
        (through (send node config (function_of q) (encode_all encode (args_of q)) 0 none))

  -- `get_agent`, `get_identity`, before the record is made, and `has_capability`
  unfoldable pub read_agent : String → ℤ → Exec RegistryError (ClientOf node) node.Value
  read_agent function_name nft_id =
      guarded (validate_nft_id nft_id)
        (through (shared_call node config function_name (encode (int nft_id) ∷ [])))

  unfoldable pub has_capability : ℤ → ℤ → Exec RegistryError (ClientOf node) node.Value
  has_capability nft_id bit =
      guarded (first_failure (validate_nft_id nft_id ∷ validate_capabilities bit ∷ [])) (
        through
          (shared_call node config "hasCapability" (encode (int nft_id) ∷ encode (int bit) ∷ [])))
