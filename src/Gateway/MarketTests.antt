-- ===== src/Gateway/MarketTests.antt =====
-- Tests of the sales, and their theorems at concrete inputs.
use big_x.Base.{◌≡◌, refl, false, none, some, [], ◌∷◌}
use big_x.Base.Exec.{ok, err}
use big_x.Resilience.Cache.{lookup}
use big_x.Gateway.Agents.{uuid, LifecycleState, http}
use big_x.Gateway.Market.{Env, State, ListingStatus, BuyRequest, User, offers, buy, buy_agent}
use big_x.Gateway.MarketLaws.{buy_agent_once}

abbrev open_env : Env
open_env = record {
  parse_uuid = λ t. ok t;
  contracts_buy = λ made p. ok (some "0xsale");
  fiat_hash = λ s. "fiat-1";
  commit_error = λ t. none;
}

abbrev on_offer : State
on_offer = record {
  tables = record {
    agents =
        (
          "a",
          record {
            owner_id = uuid "seller";
            name = "trader";
            persona = none;
            model_version = "default";
            metadata_uri = "ipfs://a";
            endpoint = none;
            capabilities = 3;
            state = LifecycleState.active;
            last_synced_at = none;
          },
        )
        ∷ [];
    listings =
        record {
          agent_id = "a";
          seller_id = "seller";
          buyer_id = none;
          price = 9;
          status = ListingStatus.active;
          tx_hash = none;
        }
        ∷ [];
    transactions = [];
  };
  purchases = [];
}

abbrev by_card : BuyRequest
by_card = record { agent_id = "a"; is_crypto = false; amount = none }

abbrev buyer : User
buyer = record { user_id = "u"; wallet_address = none }

abbrev after_sale : State
after_sale = (buy_agent open_env by_card buyer on_offer).1

buy_agent_once_example :
    buy_agent open_env by_card buyer after_sale
    ≡ (err (http 404 "Agent not listed for sale"), after_sale)
unfolding buy_agent buy offers lookup
buy_agent_once_example =
    buy_agent_once open_env by_card by_card buyer buyer "a" (some "fiat-1") on_offer after_sale refl
      refl refl
