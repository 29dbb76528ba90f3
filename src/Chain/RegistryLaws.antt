-- ===== src/Chain/RegistryLaws.antt =====
-- Proofs about the registry's client: nothing that fails a check reaches the chain, and what passes
-- them is broadcast as it was asked for.
use big_x.Base.{
  ℕ, ◌≡◌, ◌≢◌, refl, String, true, none, some, List, ◌∷◌, arith, length, ◌==◌, Bool-cases,
  Option-cases, inl, inr,
}
use big_x.Base.Int.{ℤ, pos, negsuc, neg_part}
use big_x.Base.Exec.{Result, err}
use big_x.Guardrail.Sanitize.{size}
use big_x.Chain.Web3.{Web3}
use big_x.Chain.Client.{ClientOf, Config, ClientError, wrap}
use big_x.Chain.Sends.{Sent}
use big_x.Chain.Recorded.{Recorded}
use big_x.Chain.SendLaws.{send-Recorded}
use big_x.Chain.Registry.{
  Arg, InputError, RegistryError, invalid, client, Request, register_agent, provision_account,
  activate, suspend, grant_capability, sync_owner, Check, validate_nft_id, validate_address,
  validate_capabilities, validate_name, validate_salt, first_failure, checks_of, function_of,
  args_of, encode_all, guarded, submit_request,
}
use package.text.Mathlib.Text.{starts_with}
use package.text.Mathlib.TextEquality.{eq_iff}

abbrev pub IsNatural : ℤ → Type 0
IsNatural i = neg_part i ≡ 0

abbrev pub IsAddress : String → Type 0
IsAddress a = (starts_with a "0x" ≡ true) × (size a ≡ 42)

-- What the contract's functions are given.
abbrev pub IsValid : (String → String) → Request → Type 0
IsValid strip (register_agent i owner name _ capabilities _ _ _) =
    IsNatural i × IsAddress owner × IsNatural capabilities × (strip name ≢ "")
IsValid strip (provision_account i salt) = IsNatural i × (length salt ≡ 32)
IsValid strip (activate i) = IsNatural i
IsValid strip (suspend i) = IsNatural i
IsValid strip (grant_capability i bit) = IsNatural i × IsNatural bit
IsValid strip (sync_owner i owner) = IsNatural i × IsAddress owner

first_failure-none :
    (o : Check) (cs : List Check)
    → first_failure (o ∷ cs) ≡ none
    → (o ≡ none) × (first_failure cs ≡ none)
first_failure-none none cs h = (refl, h)
first_failure-none (some e) cs h = cc

validate_nft_id-IsNatural : (i : ℤ) → validate_nft_id i ≡ none → IsNatural i
validate_nft_id-IsNatural (pos n) h = refl
validate_nft_id-IsNatural (negsuc n) h = cc

validate_capabilities-IsNatural : (i : ℤ) → validate_capabilities i ≡ none → IsNatural i
validate_capabilities-IsNatural (pos n) h = refl
validate_capabilities-IsNatural (negsuc n) h = cc

some_refuses : {e : InputError} → some e ≢ none
some_refuses h = cc

validate_address-IsAddress : (a : String) → validate_address a ≡ none → IsAddress a
validate_address-IsAddress a h = elim (Bool-cases (starts_with a "0x")) [
  | inl hex ↦ elim (Bool-cases (size a == 42)) [
    | inl long ↦ (hex, ground arith)
    | inr other ↦ absurd (some_refuses (rw (hex, other, validate_address) at h))
  ]
  | inr other ↦ absurd (some_refuses (rw (other, validate_address) at h))
]

validate_salt_lem : (salt : List ℕ) → validate_salt salt ≡ none → length salt ≡ 32
validate_salt_lem salt h = ground arith

module _ (strip : String → String) where
  validate_name_lem : (name : String) → validate_name strip name ≡ none → strip name ≢ ""
  validate_name_lem name h = ground (arith, eq_iff (strip name) "")

  checks_of-IsValid : (q : Request) → checks_of strip q ≡ none → IsValid strip q
  unfolding checks_of
  checks_of-IsValid (register_agent i owner name p capabilities v u e) h =
      let a = first_failure-none (validate_nft_id i) _ h in
      let b = first_failure-none (validate_address owner) _ a.1 in
      let c = first_failure-none (validate_capabilities capabilities) _ b.1 in
      let d = first_failure-none (validate_name strip name) _ c.1 in
      (
        validate_nft_id-IsNatural i a.0,
        validate_address-IsAddress owner b.0,
        validate_capabilities-IsNatural capabilities c.0,
        validate_name_lem name d.0,
      )
  checks_of-IsValid (provision_account i salt) h =
      let a = first_failure-none (validate_nft_id i) _ h in
      let b = first_failure-none (validate_salt salt) _ a.1 in
      (validate_nft_id-IsNatural i a.0, validate_salt_lem salt b.0)
  checks_of-IsValid (activate i) h = validate_nft_id-IsNatural i h
  checks_of-IsValid (suspend i) h = validate_nft_id-IsNatural i h
  checks_of-IsValid (grant_capability i bit) h =
      let a = first_failure-none (validate_nft_id i) _ h in
      let b = first_failure-none (validate_capabilities bit) _ a.1 in
      (validate_nft_id-IsNatural i a.0, validate_capabilities-IsNatural bit b.0)
  checks_of-IsValid (sync_owner i owner) h =
      let a = first_failure-none (validate_nft_id i) _ h in
      let b = first_failure-none (validate_address owner) _ a.1 in
      (validate_nft_id-IsNatural i a.0, validate_address-IsAddress owner b.0)

module _ {W : Type 0} (node : Web3 W) (config : Config) (strip : String → String)
    (encode : Arg → node.Value) (q : Request) where
  -- A request is refused before the client is touched, or it is valid and its broadcasts account for
  -- its result.
  pub data Submitted (c : ClientOf node) (r : Result RegistryError Sent) (c' : ClientOf node)
      : Type 0 where
    refused :
        (e : InputError)
        → checks_of strip q ≡ some e
        → r ≡ err (invalid e)
        → c' ≡ c
        → Submitted c r c'
    sent :
        (s : Result ClientError Sent)
        → IsValid strip q
        → r ≡ wrap client s
        → Recorded config
            (function_of q)
            (encode_all encode (args_of q))
            0
            config.max_retries
            c.journal
            s
            c'.journal
        → Submitted c r c'

  -- A request that fails one of its checks raises that and leaves the client as it was. Every other
  -- one has identifiers and capabilities that are not negative, addresses of 42 characters that begin
  -- with 0x, a salt of 32 bytes and a name that is not blank; at most `max_retries` transactions are
  -- broadcast for it, each with its function and arguments and no value, and they account for the
  -- result as in `send`.
  pub submit_request-Submitted :
      (c : ClientOf node)
      → Submitted c
          (submit_request node config strip encode q c).0
          (submit_request node config strip encode q c).1
  unfolding submit_request
  submit_request-Submitted c = elim (Option-cases (checks_of strip q)) [
    | inl passed ↦
        rw (passed, guarded)
          (sent _ (checks_of-IsValid strip q passed) refl
            (send-Recorded node config (function_of q) (encode_all encode (args_of q)) 0 none c))
    | inr (e, failed) ↦ rw (failed, guarded) (refused e failed refl refl)
  ]
