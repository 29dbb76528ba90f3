-- ===== src/Chain/Nonces.antt =====
-- `NonceManager`: the next nonce of every address that was asked for.
use big_x.Base.{ℕ, ◌+◌, String, Option, none, some}
use big_x.Base.Exec.{ok, Exec, ◌>>=◌}
use big_x.Resilience.Cache.{lookup, insert}
use big_x.Chain.Web3.{Web3}
use big_x.Chain.Client.{ClientOf, AttemptError, nonce_error, on_node}

module _ {W : Type 0} (node : Web3 W) where
  -- `nonce = self._cache[address]; self._cache[address] += 1`, and the first line before them, which
  -- stores the pending count.
  abbrev pub take_nonce : String → ℕ → Exec AttemptError (ClientOf node) ℕ
  take_nonce address n c = (ok n, record c { nonces = insert address (n + 1) c.nonces })

  abbrev pub next_nonce : node.Provider → String → Option ℕ → Exec AttemptError (ClientOf node) ℕ
  next_nonce w3 address (some n) = take_nonce address n
  next_nonce w3 address none = do
    n ← on_node nonce_error (node.transaction_count w3 address)
    take_nonce address n

  -- Its exception is raised as a `NonceError` by the caller.
  unfoldable pub get_and_increment : node.Provider → String → Exec AttemptError (ClientOf node) ℕ
  get_and_increment w3 address c = next_nonce w3 address (lookup address c.nonces) c
