-- ===== src/Gateway/Market.antt =====
-- `buy_agent` of apps/api-gateway/src/main.py, over the tables of agents, listings and transactions.
use big_x.Base.{
  ℕ, zero, suc, String, Bool, true, false, ◌&&◌, Option, none, some, List, [], ◌∷◌, if◌then◌else◌,
}
use big_x.Base.Exec.{Result, ok, err, Exec, pure, raise, lift, or_raise, ◌>>=◌, ◌>>◌}
use big_x.Resilience.Cache.{lookup, insert}
use big_x.Gateway.Agents.{Agent, str, HttpError, http, unhandled}
use package.text.Mathlib.Text.{◌==◌}

pub data ListingStatus : Type 0 where
  active sold cancelled : ListingStatus

pub record Listing : Type 0 where
  pub agent_id : String
  pub seller_id : String
  pub buyer_id : Option String
  pub price : ℕ
  pub status : ListingStatus
  pub tx_hash : Option String

pub data TransactionStatus : Type 0 where
  pending confirmed : TransactionStatus

pub record Transaction : Type 0 where
  pub agent_id : String
  pub tx_hash : Option String
  pub status : TransactionStatus
  pub from_address : String
  pub to_address : String
  pub amount : ℕ

pub record Tables : Type 0 where
  pub agents : List (String × Agent)
  pub listings : List Listing
  pub transactions : List Transaction

-- A purchase on the chain: the agent, whose row has the NFT's id, the buyer and the price.
pub record Purchase : Type 0 where
  pub agent_id : String
  pub buyer : String
  pub price : ℕ

-- The database and the purchases that were asked for, which no rollback takes back.
pub record State : Type 0 where
  pub tables : Tables
  pub purchases : List Purchase

abbrev pub Action : Type 0 → Type 0
Action A = Exec HttpError State A

pub record BuyRequest : Type 0 where
  pub agent_id : String
  pub is_crypto : Bool
  pub amount : Option ℕ

pub record User : Type 0 where
  pub user_id : String
  pub wallet_address : Option String

pub record Env : Type 0 where
  pub parse_uuid : String → Result String String
  -- the answer of "/contracts/buy", with its `tx_hash`, and the hash made up for a fiat payment
  pub contracts_buy : List Purchase → Purchase → Result String (Option String)
  pub fiat_hash : State → String
  pub commit_error : Tables → Option String

abbrev is_active : ListingStatus → Bool
is_active active = true
is_active _ = false

abbrev pub is_offer : String → Listing → Bool
is_offer u l = l.agent_id == u && is_active l.status

unfoldable pub offers : String → List Listing → List Listing
offers u [] = []
offers u (l ∷ ls) = let rest = offers u ls in if is_offer u l then l ∷ rest else rest

-- `scalar_one_or_none`, which raises on two rows
abbrev one_or_none : List Listing → Action Listing
one_or_none [] = raise (http 404 "Agent not listed for sale")
one_or_none (l ∷ []) = pure l
one_or_none (l ∷ l' ∷ ls) =
    raise (unhandled "Multiple rows were found when one or none was required")

abbrev text_or_empty : Option String → String
text_or_empty none = ""
text_or_empty (some t) = t

-- `payload.amount or float(listing.price)`
abbrev offered : Option ℕ → ℕ → ℕ
offered none price = price
offered (some zero) price = price
offered (some (suc n)) price = suc n

abbrev raised : {A : Type 0} → Result String A → Result HttpError A
raised (ok a) = ok a
raised (err e) = err (unhandled e)

abbrev sell : String → Option String → Listing → Listing
sell user_id tx_hash l = record l { status = sold; buyer_id = some user_id; tx_hash = tx_hash }

-- The row that was read is the one offer.
unfoldable pub sell_offer : String → String → Option String → List Listing → List Listing
sell_offer u user_id tx_hash [] = []
sell_offer u user_id tx_hash (l ∷ ls) =
    let rest = sell_offer u user_id tx_hash ls in
    if is_offer u l then sell user_id tx_hash l ∷ rest else l ∷ rest

abbrev pub transfer : Bool → String → User → Option String → Listing → Agent → Tables → Tables
transfer is_crypto u user tx_hash l agent t = record {
  agents = insert u (record agent { owner_id = str user.user_id }) t.agents;
  listings = sell_offer u user.user_id tx_hash t.listings;
  transactions =
      record {
        agent_id = u;
        tx_hash = tx_hash;
        status = if is_crypto then confirmed else pending;
        from_address = l.seller_id;
        to_address = text_or_empty user.wallet_address;
        amount = l.price;
      }
      ∷ t.transactions;
}

abbrev commit : Option String → Tables → Action (Unit {0})
commit none t s = (ok tt, record s { tables = t })
commit (some e) t s = (err (unhandled e), s)

module _ (env : Env) where
  abbrev buy_on_chain : Purchase → Action (Option String)
  buy_on_chain p s =
      (raised (env.contracts_buy s.purchases p), record s { purchases = p ∷ s.purchases })

  abbrev pay : BuyRequest → User → String → ℕ → Action (Option String)
  pay payload user u price s =
      if payload.is_crypto
      then buy_on_chain
          (record {
            agent_id = u;
            buyer = text_or_empty user.wallet_address;
            price = offered payload.amount price;
          })
          s
      else (ok (some (env.fiat_hash s)), s)

  abbrev settle : Tables → Action (Unit {0})
  settle t = commit (env.commit_error t) t

  unfoldable pub buy : BuyRequest → User → Action (Option String)
  buy payload user = do
    u ← lift (raised (env.parse_uuid payload.agent_id))
    listing ← λ s. one_or_none (offers u s.tables.listings) s
    agent ← λ s. or_raise (lookup u s.tables.agents) (http 404 "Agent not found") s
    tx_hash ← pay payload user u listing.price
    λ s. settle (transfer payload.is_crypto u user tx_hash listing agent s.tables) s
    pure tx_hash

  abbrev bad_gateway :
      Result HttpError (Option String) × State → Result HttpError (Option String) × State
  bad_gateway (ok a, s) = (ok a, s)
  bad_gateway (err (http code detail), s) = (err (http code detail), s)
  bad_gateway (err (unhandled e), s) = (err (http 502 e), s)

  unfoldable pub buy_agent : BuyRequest → User → Action (Option String)
  buy_agent payload user s = bad_gateway (buy payload user s)
