-- ===== src/Backend/Tests.antt =====
-- Tests of the backend's sign-in, and its theorem at a concrete input.
use big_x.Base.{String, ◌≡◌, ◌≢◌, refl, inr, some, none, List, [], ◌∷◌, if◌then◌else◌, arith}
use big_x.Base.Exec.{ok, err}
use big_x.Backend.Siwe.{
  SiweEnv, SiweLoginRequest, invalid_signature, missing_nonce, invalid_nonce, Nonces,
  verify_and_consume_nonce, verify_siwe,
}
use big_x.Backend.SiweLaws.{Event, apply_all, issued, login, verify_siwe_once}
use big_x.Resilience.Cache.{lookup, remove}
use package.text.Mathlib.Text.{◌==◌}
use package.text.Mathlib.TextEquality.{eq_iff}

-- A message has one line; a signature names its signer, and an empty one is not valid.
abbrev plain_env : SiweEnv
plain_env = record {
  recover = λ message signature. if signature == "" then none else some signature;
  lower = λ t. t;
  lines = λ t. t ∷ [];
  after_colon = λ t. if t == "Nonce:k1" then "k1" else "";
}

abbrev alice_login : SiweLoginRequest
alice_login = record { message = "Nonce:k1"; signature = "alice" }

abbrev after_nonce : Nonces
after_nonce = ("alice", "k1") ∷ []

signs_in : verify_siwe plain_env alice_login after_nonce ≡ (ok ("alice", "k1"), [])
unfolding verify_siwe verify_and_consume_nonce lookup remove
signs_in = refl

unsigned :
    verify_siwe plain_env (record { message = "Nonce:k1"; signature = "" }) after_nonce
    ≡ (err invalid_signature, after_nonce)
unfolding verify_siwe verify_and_consume_nonce
unsigned = refl

no_nonce :
    verify_siwe plain_env (record { message = "hello"; signature = "alice" }) after_nonce
    ≡ (err missing_nonce, after_nonce)
unfolding verify_siwe verify_and_consume_nonce
no_nonce = refl

signed_in : (verify_siwe plain_env alice_login after_nonce).0 ≡ ok ("alice", "k1")
unfolding verify_siwe verify_and_consume_nonce lookup
signed_in = refl

abbrev meanwhile : List Event
meanwhile = issued "alice" "k2" ∷ login alice_login ∷ []

other_nonce : ◌≢◌ {A = String} "k2" "k1"
other_nonce h = ground (arith, eq_iff "k2" "k1", h)

verify_siwe_once_example :
    (verify_siwe plain_env alice_login
      (apply_all plain_env meanwhile (verify_siwe plain_env alice_login after_nonce).1)).0
    ≡ err invalid_nonce
verify_siwe_once_example =
    verify_siwe_once plain_env alice_login "alice" "k1" after_nonce meanwhile signed_in
      (inr other_nonce, (tt, tt))
