-- ===== src/Tools/Tests.antt =====
-- Tests of the bridge tool, and its theorems at concrete inputs.
use big_x.Base.{
  ◌≡◌, refl, ap, String, Bool, true, false, none, some, List, [], ◌∷◌, ◌++◌, if◌then◌else◌,
}
use big_x.Base.Exec.{ok, err}
use big_x.Resilience.Cache.{lookup, insert}
use big_x.Tools.Bridge.{
  Quote, Response, refused, offered, no_route, duplicate, key_error, Request, BridgeEnv, Tool, name,
  returned, quote_of, is_allowed, record_result, quote_provider, find_best, settle, quote,
  source_chain,
}
use big_x.Tools.BridgeLaws.{answers, IsCheapest, find_best-Cheapest}
use big_x.Tools.BridgeRuns.{quote-source_chain}
use big_x.Tools.BridgeOnce.{Keys, quote-duplicate}
use package.text.Mathlib.Text.{◌==◌}

abbrev response : String → Response
response p =
    if p == "hop"
    then offered (some 9) none none
    else if p == "swift"
    then offered (some 4) none none
    else refused

-- The world says whether the key of the request is held.
abbrev bridges : List String → BridgeEnv Bool
bridges providers = record {
  providers = providers;
  minute = 60;
  mpc_url = "https://wallet";
  now = λ w. 100;
  has_api = λ p. true;
  fetch = λ p r n w. (ok (response p), w);
  is_token = λ t. false;
  knows_chain = λ c. true;
  is_address = λ a. true;
  units = λ r w. (ok 500, w);
  digest = λ r n. "k";
  is_dup = λ k w. (ok w, w);
  set_dup = λ k w. (ok tt, true);
  agrees = λ r n q w. (ok true, w);
  new_id = λ w. (ok "b1", w);
  insert_row = λ id r n q w. (ok tt, w);
  push = λ id q w. (ok tt, w);
  has_queued = λ id w. (ok true, w);
}

abbrev site : BridgeEnv Bool
site = bridges ("hop" ∷ "swift" ∷ "gone" ∷ [])

abbrev request : Request
request = record {
  token = "ETH";
  src = "1";
  dst = "10";
  amount = 5;
  to = "0xab";
  auth = "";
  max_spend = none;
}

abbrev unused : Tool Bool
unused = record { circ = []; queue = []; world = false }

abbrev swift_quote : Quote
swift_quote = quote_of "swift" 500 (some 4) none none

cheapest : (find_best site site.providers request 500 none unused).0 ≡ some swift_quote
unfolding find_best quote_provider is_allowed record_result lookup insert
cheapest = refl

-- Five refusals close the way to a provider, and its server is not asked.
closed_way :
    (is_allowed 60 100 "gone" (
      record_result 99 "gone" false (
        record_result 98 "gone" false (
          record_result 97 "gone" false
            (record_result 96 "gone" false (record_result 95 "gone" false [])))))).0
    ≡ false
unfolding is_allowed record_result lookup insert
closed_way = refl

quoted : (quote site request unused).0 ≡ ok (returned "b1" swift_quote request)
unfolding quote settle find_best quote_provider is_allowed record_result lookup insert
quoted = refl

-- Without a route the request fails, and its key stays.
unrouted : (quote (bridges ("gone" ∷ [])) request unused).0 ≡ err no_route
unfolding quote settle find_best quote_provider is_allowed record_result lookup insert
unrouted = refl

find_best-Cheapest_example :
    IsCheapest
      (answers site site.providers request 500 unused)
      (find_best site site.providers request 500 none unused).0
find_best-Cheapest_example = find_best-Cheapest site request 500 unused

quoted_all :
    quote site request unused
    ≡ (ok (returned "b1" swift_quote request), (quote site request unused).1)
unfolding quote settle find_best quote_provider is_allowed record_result lookup insert
quoted_all = refl

quote-source_chain_example :
    (id : String) × (best : Quote) × (lookup "src" (returned "b1" swift_quote request)
      ≡ some (name "1"))
    × ((quote site request unused).1.queue ≡ [] ++ ((id, best) ∷ []))
    × ((source_chain site id best true).0 ≡ err (key_error "src"))
quote-source_chain_example =
    quote-source_chain site request (returned "b1" swift_quote request) unused
      (quote site request unused).1 true quoted_all refl

no_routes : Keys (bridges ("gone" ∷ [])) (λ w. w ≡ true) "k"
no_routes = record {
  written = λ w. (refl, refl);
  found = λ w h. ap ok h;
  fetch = λ p r n w h. h;
  units = λ r w h. h;
  agrees = λ r n q w h. h;
  new_id = λ w h. h;
  insert_row = λ id r n q w h. h;
  push = λ id q w h. h;
}

quote-duplicate_example :
    (quote (bridges ("gone" ∷ [])) request (quote (bridges ("gone" ∷ [])) request unused).1).0
    ≡ err duplicate
quote-duplicate_example =
    quote-duplicate (bridges ("gone" ∷ [])) no_routes request 500 refl refl refl refl (λ w. refl)
      unused refl
