-- ===== src/Tools/Bridge.antt =====
-- `BridgeTool` of services/tool_router/src/tools/bridge_tool.py: its circuits, the search for the
-- cheapest quote, `quote`, and the start of `_execute`. Redis, the database, web3, JWT and the
-- providers' servers are the record BridgeEnv. A quote is the dictionary that the source makes.
use big_x.Base.{
  ℕ, ◌+◌, ◌-◌, String, Bool, true, false, not, ◌&&◌, ◌||◌, Option, none, some, List, [], ◌∷◌, ◌++◌,
  ltb, leb, ◌==◌, if◌then◌else◌,
}
use big_x.Base.Exec.{Result, ok, err, Exec, pure, raise, ◌>>=◌, ◌>>◌, or_raise}
use big_x.Resilience.Breaker.{CircuitState, closed, opened, half_open}
use big_x.Resilience.Cache.{lookup, insert}
use package.text.Mathlib.Text.{◌==◌ as same_text}

pub record Circuit : Type 0 where
  pub failures : ℕ
  pub last : ℕ
  pub state : CircuitState

abbrev pub new_circuit : Circuit
new_circuit = record { failures = 0; last = 0; state = closed }

abbrev pub Circuits : Type 0
Circuits = List (String × Circuit)

abbrev pub is_open : CircuitState → Bool
is_open opened = true
is_open _ = false

abbrev pub or_new : Option Circuit → Circuit
or_new none = new_circuit
or_new (some c) = c

-- `self.circ.setdefault(p, ...)`
abbrev pub circuit_of : String → Circuits → Circuit
circuit_of p circ = or_new (lookup p circ)

-- `_circuit`, with 60 seconds in units of the clock
abbrev pub after_minute : ℕ → ℕ → Circuit → Circuit
after_minute minute now c =
    if is_open c.state && ltb minute (now - c.last) then record c { state = half_open } else c

unfoldable pub is_allowed : ℕ → ℕ → String → Circuits → Bool × Circuits
is_allowed minute now p circ =
    let c = after_minute minute now (circuit_of p circ) in (not (is_open c.state), insert p c circ)

-- `_record`
abbrev pub open_if_full : Circuit → Circuit
open_if_full c = if leb 5 c.failures then record c { state = opened } else c

abbrev pub told : ℕ → Bool → Circuit → Circuit
told now true c = open_if_full (record c { state = closed; failures = 0 })
told now false c = open_if_full (record c { failures = c.failures + 1; last = now })

unfoldable pub record_result : ℕ → String → Bool → Circuits → Circuits
record_result now p s circ = insert p (told now s (circuit_of p circ)) circ

pub data Field : Type 0 where
  name : String → Field
  number : ℕ → Field
  blob : String → Field

abbrev pub Quote : Type 0
Quote = List (String × Field)

-- What a provider's server answers: the status, and for 200 the fields of its JSON, if they are there.
pub data Response : Type 0 where
  refused : Response
  offered : Option ℕ → Option ℕ → Option String → Response

pub data BridgeError : Type 0 where
  invalid_token invalid exceeds_spend duplicate no_route oracle_mismatch mpc_missing : BridgeError
  key_error other_error : String → BridgeError

pub record Request : Type 0 where
  pub token : String
  pub src : String
  pub dst : String
  pub amount : ℕ
  pub to : String
  pub auth : String
  pub max_spend : Option ℕ

-- `now` and `minute` are in the same unit. `units` is the amount in the token's smallest unit;
-- `is_dup` and `set_dup` read and write the key of a request; `has_queued` looks for a queued row.
pub record BridgeEnv (W : Type 0) : Type 0 where
  pub providers : List String
  pub minute : ℕ
  pub mpc_url : String
  pub now : W → ℕ
  pub has_api : String → Bool
  pub fetch : String → Request → ℕ → Exec BridgeError W Response
  pub is_token : String → Bool
  pub knows_chain : String → Bool
  pub is_address : String → Bool
  pub units : Request → Exec BridgeError W ℕ
  pub digest : Request → ℕ → String
  pub is_dup : String → Exec BridgeError W Bool
  pub set_dup : String → Exec BridgeError W (Unit {0})
  pub agrees : Request → ℕ → Quote → Exec BridgeError W Bool
  pub new_id : Exec BridgeError W String
  pub insert_row : String → Request → ℕ → Quote → Exec BridgeError W (Unit {0})
  pub push : String → Quote → Exec BridgeError W (Unit {0})
  pub has_queued : String → Exec BridgeError W Bool

-- The circuits, and the ids and quotes on the list "bridge:queue".
pub record Tool (W : Type 0) : Type 0 where
  pub circ : Circuits
  pub queue : List (String × Quote)
  pub world : W

abbrev pub or_number : Option ℕ → ℕ → ℕ
or_number none n = n
or_number (some m) n = m

abbrev pub or_blob : Option String → String
or_blob none = "{}"
or_blob (some t) = t

-- The dictionary that `_quote_provider` returns.
abbrev pub quote_of : String → ℕ → Option ℕ → Option ℕ → Option String → Quote
quote_of p amount fee dst_amount tx =
    ("provider", name p)
    ∷ ("fee", number (or_number fee 0))
    ∷ ("dst_amount", number (or_number dst_amount amount))
    ∷ ("tx", blob (or_blob tx))
    ∷ []

-- The dictionary that `quote` returns.
abbrev pub returned : String → Quote → Request → Quote
returned id best r =
    ("id", name id)
    ∷ (best
        ++ (("token", name r.token)
            ∷ ("amount", number r.amount)
            ∷ ("to", name r.to)
            ∷ ("src", name r.src)
            ∷ ("dst", name r.dst)
            ∷ []))

abbrev pub fee_of : Option Field → Option ℕ
fee_of (some (number n)) = some n
fee_of _ = none

-- `q.get("fee", inf) < best.get("fee", inf)`
abbrev pub is_cheaper : Option ℕ → Option ℕ → Bool
is_cheaper none _ = false
is_cheaper (some n) none = true
is_cheaper (some n) (some m) = ltb n m

abbrev pub better : Option Quote → Option Quote → Option Quote
better best none = best
better none (some q) = some q
better (some b) (some q) =
    if is_cheaper (fee_of (lookup "fee" q)) (fee_of (lookup "fee" b)) then some q else some b

-- `policy.get("max_spend", 0) and amt > policy["max_spend"]`
abbrev pub is_within : ℕ → Option ℕ → Bool
is_within amount none = true
is_within amount (some most) = most == 0 || leb amount most

module _ {W : Type 0} where
  abbrev pub outside : {A : Type 0} → Exec BridgeError W A → Exec BridgeError (Tool W) A
  outside act t = ((act t.world).0, record t { world = (act t.world).1 })

  abbrev pub guard : Bool → BridgeError → Exec BridgeError (Tool W) (Unit {0})
  guard true e = pure tt
  guard false e = raise e

  abbrev pub name_at : Option Field → Exec BridgeError W (Option String)
  name_at (some (name c)) = pure (some c)
  name_at _ = raise (key_error "src")

module _ {W : Type 0} (env : BridgeEnv W) where
  abbrev pub tell : String → Bool → Tool W → Tool W
  tell p s t = record t { circ = record_result (env.now t.world) p s t.circ }

  -- A bare `except` turns every exception into a failure.
  abbrev pub answered :
      String → ℕ → Result BridgeError Response × W → Tool W → Option Quote × Tool W
  answered p amount (ok (offered fee dst_amount tx), w) t =
      (some (quote_of p amount fee dst_amount tx), tell p true (record t { world = w }))
  answered p amount (ok refused, w) t = (none, tell p false (record t { world = w }))
  answered p amount (err e, w) t = (none, tell p false (record t { world = w }))

  abbrev pub ask_if : Bool × Circuits → String → Request → ℕ → Tool W → Option Quote × Tool W
  ask_if (false, circ) p r amount t = (none, record t { circ = circ })
  ask_if (true, circ) p r amount t =
      if env.has_api p
      then answered p amount (env.fetch p r amount t.world) (record t { circ = circ })
      else (none, tell p false (record t { circ = circ }))

  -- `_quote_provider`, which never raises, so that its retries do not happen
  unfoldable pub quote_provider : String → Request → ℕ → Tool W → Option Quote × Tool W
  quote_provider p r amount t =
      ask_if (is_allowed env.minute (env.now t.world) p t.circ) p r amount t

  -- The loop over the providers.
  unfoldable pub find_best :
      List String → Request → ℕ → Option Quote → Tool W → Option Quote × Tool W
  find_best [] r amount best t = (best, t)
  find_best (p ∷ ps) r amount best t =
      let (q, t') = quote_provider p r amount t in find_best ps r amount (better best q) t'

  abbrev pub search : Request → ℕ → Exec BridgeError (Tool W) (Option Quote)
  search r amount t = let (q, t') = find_best env.providers r amount none t in (ok q, t')

  -- `_enqueue`, where `env.push` is the command to Redis
  abbrev pub enqueue : String → Quote → Exec BridgeError (Tool W) (Unit {0})
  enqueue id q =
      outside (env.push id q) >> λ t. (ok tt, record t { queue = t.queue ++ ((id, q) ∷ []) })

  -- From the search for a quote on.
  unfoldable pub settle : Request → ℕ → Exec BridgeError (Tool W) Quote
  settle r amount = do
    best ← search r amount
    q ← or_raise best no_route
    agreed ← outside (env.agrees r amount q)
    guard agreed oracle_mismatch
    id ← outside env.new_id
    outside (env.insert_row id r amount q)
    enqueue id q
    pure (returned id q r)

  unfoldable pub quote : Request → Exec BridgeError (Tool W) Quote
  quote r = do
    guard (same_text r.auth "" || env.is_token r.auth) invalid_token
    guard (env.knows_chain r.src && env.knows_chain r.dst && env.is_address r.to) invalid
    amount ← outside (env.units r)
    guard (is_within amount r.max_spend) exceeds_spend
    dup ← outside (env.is_dup (env.digest r amount))
    guard (not dup) duplicate
    outside (env.set_dup (env.digest r amount))
    settle r amount

  -- `_execute` up to `q["src"]`: nothing without a queued row, and the chain to send on otherwise.
  unfoldable pub source_chain : String → Quote → Exec BridgeError W (Option String)
  source_chain id q = do
    (if same_text env.mpc_url "" then raise mpc_missing else pure tt)
    queued ← env.has_queued id
    (if queued then name_at (lookup "src" q) else pure none)
