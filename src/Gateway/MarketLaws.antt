-- ===== src/Gateway/MarketLaws.antt =====
-- Proofs about sales.
use big_x.Base.{
  ◌≡◌, refl, ap, ◌∙◌, arith, String, false, Option, none, some, List, [], ◌∷◌, Option-cases, inl,
  inr,
}
use big_x.Base.Exec.{ok, err}
use big_x.Resilience.Cache.{lookup}
use big_x.Gateway.Agents.{Agent, OwnerId, str, http}
use big_x.Gateway.Market.{
  Listing, Transaction, TransactionStatus, pending, State, BuyRequest, User, Env, offers,
  sell_offer, buy, buy_agent,
}
use big_x.Resilience.CacheLaws.{lookup-insert}
use package.text.Mathlib.TextEquality.{eq_iff}

-- After a sale nothing of the agent is on offer.
offers-sell_offer :
    (u user_id : String) (h : Option String) (ls : List Listing)
    → offers u (sell_offer u user_id h ls) ≡ []
unfolding offers sell_offer
offers-sell_offer u user_id h [] = refl
offers-sell_offer u user_id h (l ∷ ls) = ground (arith, offers-sell_offer u user_id h ls)

-- What a purchase that succeeds leaves of the listings.
buy-listings :
    (env : Env) (payload : BuyRequest) (user : User) (u : String) (h : Option String) (s s' : State)
    → env.parse_uuid payload.agent_id ≡ ok u
    → buy_agent env payload user s ≡ (ok h, s')
    → s'.tables.listings ≡ sell_offer u user.user_id h s.tables.listings
unfolding buy_agent buy
buy-listings env payload user u h s s' parsed e = ground arith

not_offered :
    (env : Env) (payload : BuyRequest) (user : User) (u : String) (s : State)
    → env.parse_uuid payload.agent_id ≡ ok u
    → offers u s.tables.listings ≡ []
    → buy_agent env payload user s ≡ (err (http 404 "Agent not listed for sale"), s)
unfolding buy_agent buy
not_offered env payload user u s parsed none_left = rw (parsed, none_left) refl

abbrev pub owner_of : Option Agent → Option OwnerId
owner_of none = none
owner_of (some a) = some a.owner_id

abbrev pub latest_status : List Transaction → Option TransactionStatus
latest_status [] = none
latest_status (t ∷ ts) = some t.status

fiat_leaves :
    (env : Env) (payload : BuyRequest) (user : User) (u : String) (h : Option String) (s s' : State)
    → env.parse_uuid payload.agent_id ≡ ok u
    → payload.is_crypto ≡ false
    → buy_agent env payload user s ≡ (ok h, s')
    → (s'.purchases ≡ s.purchases)
      × (owner_of (lookup u s'.tables.agents) ≡ some (str user.user_id))
      × (latest_status s'.tables.transactions ≡ some pending)
unfolding buy_agent buy
fiat_leaves env payload user u h s s' parsed fiat e =
    elim (Option-cases (lookup u s.tables.agents)) [
      | inl missing ↦ absurd (ground arith)
      | inr (a, found) ↦ ground (
        arith,
        eq_iff u u,
        lookup-insert u u (record a { owner_id = str user.user_id }) s.tables.agents,
      )
    ]

-- An agent is sold once: after a purchase that succeeded, each further one of the same agent, by any
-- user and with any payment, is answered by 404 and changes nothing.
pub buy_agent_once :
    (env : Env) (payload payload' : BuyRequest) (user user' : User) (u : String) (h : Option String)
    (s s' : State)
    → env.parse_uuid payload.agent_id ≡ ok u
    → env.parse_uuid payload'.agent_id ≡ ok u
    → buy_agent env payload user s ≡ (ok h, s')
    → buy_agent env payload' user' s' ≡ (err (http 404 "Agent not listed for sale"), s')
buy_agent_once env payload payload' user user' u h s s' parsed parsed' e =
    not_offered env payload' user' u s' parsed' (
      ap (offers u) (buy-listings env payload user u h s s' parsed e)
      ∙ offers-sell_offer u user.user_id h s.tables.listings)

-- A fiat purchase that succeeds has asked nobody for a payment: no purchase was made on the chain, the
-- buyer owns the agent, the offer is sold, and the transaction of the sale is still pending.
pub buy_agent_fiat :
    (env : Env) (payload : BuyRequest) (user : User) (u : String) (h : Option String) (s s' : State)
    → env.parse_uuid payload.agent_id ≡ ok u
    → payload.is_crypto ≡ false
    → buy_agent env payload user s ≡ (ok h, s')
    → (s'.purchases ≡ s.purchases)
      × (owner_of (lookup u s'.tables.agents) ≡ some (str user.user_id))
      × (offers u s'.tables.listings ≡ [])
      × (latest_status s'.tables.transactions ≡ some pending)
buy_agent_fiat env payload user u h s s' parsed fiat e =
    let (kept, owned, waiting) = fiat_leaves env payload user u h s s' parsed fiat e in
    (
      kept,
      owned,
      ap (offers u) (buy-listings env payload user u h s s' parsed e)
          ∙ offers-sell_offer u user.user_id h s.tables.listings,
      waiting,
    )
