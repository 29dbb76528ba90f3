-- ===== src/Signing/Nonces.antt =====
-- `NonceManager` of contracts/wallet_service.py for one address. Instances of the service share the
-- key of the address in Redis. The calls of one instance run one after another under its lock, and
-- every `await` of a call is a point where another instance, Redis or the chain may step in.
use big_x.Base.{ℕ, suc, Option, none, some, List, [], ◌∷◌, ◌==◌, if◌then◌else◌}

-- Where an instance stands in `get_and_increment`: before `get`, after a `get` that found nothing,
-- before `set` with the count of the chain, and before `incr` with the nonce to return.
pub data Pc : Type 0 where
  idle missed : Pc
  counted chosen : ℕ → Pc

-- The key in Redis, the chain's count of transactions with the pending ones, the instances, and the
-- nonces that were returned, the last one first.
pub record System : Type 0 where
  pub cached : Option ℕ
  pub pending : ℕ
  pub pcs : ℕ → Pc
  pub issued : List ℕ

-- INCR, which takes a missing key for 0
abbrev pub incremented : Option ℕ → ℕ
incremented none = 1
incremented (some n) = suc n

abbrev pub set_pc : ℕ → Pc → (ℕ → Pc) → ℕ → Pc
set_pc i pc pcs j = if i == j then pc else pcs j

-- The next step of the call that instance `i` runs.
abbrev pub advance : Pc → Option ℕ → ℕ → System → System
advance idle none i s = record s { pcs = set_pc i missed s.pcs }
advance idle (some n) i s = record s { pcs = set_pc i (chosen n) s.pcs }
advance missed _ i s = record s { pcs = set_pc i (counted s.pending) s.pcs }
advance (counted n) _ i s = record s { cached = some n; pcs = set_pc i (chosen n) s.pcs }
advance (chosen n) cached i s = record s {
  cached = some (incremented cached);
  pcs = set_pc i idle s.pcs;
  issued = n ∷ s.issued;
}

-- `resync_from_chain` takes no lock, and the key has a time to live.
pub data Event : Type 0 where
  step : ℕ → Event
  chain_moves : ℕ → Event
  resync expire : Event

abbrev pub apply : Event → System → System
apply (step i) s = advance (s.pcs i) s.cached i s
apply (chain_moves n) s = record s { pending = n }
apply resync s = record s { cached = some s.pending }
apply expire s = record s { cached = none }

unfoldable pub play : List Event → System → System
play [] s = s
play (e ∷ es) s = play es (apply e s)
