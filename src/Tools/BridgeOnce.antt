-- ===== src/Tools/BridgeOnce.antt =====
-- Proofs about requests that come again: the key of a request is written before a route is sought.
use big_x.Base.{
  ◌≡◌, refl, String, Bool, true, false, Option, none, List, [], ◌∷◌, ℕ, ◌||◌, ◌&&◌, Bool-cases, inl,
  inr,
}
use big_x.Base.Exec.{Result, ok, err, Exec, or_raise, Result-cases}
use big_x.Base.Triple.{Post, Keeps, Triple-bind, Keeps-pure, Keeps-or_raise}
use big_x.Tools.Bridge.{
  Circuits, Quote, Response, refused, offered, BridgeError, duplicate, no_route, oracle_mismatch,
  is_within, guard, Request, BridgeEnv, Tool, outside, search, enqueue, returned, settle, quote,
  answered, ask_if, quote_provider, find_best, is_allowed,
}
use package.text.Mathlib.Text.{◌==◌ as same_text}

-- What Redis does with the keys of requests, within the time that a key lives: `set` writes it, `get`
-- finds it, and nothing else that `quote` does touches it.
pub record Keys {W : Type 0} (env : BridgeEnv W) (IsHeld : W → Type 0) (key : String) : Type 0 where
  pub written : (w : W) → ((env.set_dup key w).0 ≡ ok tt) × IsHeld (env.set_dup key w).1
  pub found : (w : W) → IsHeld w → (env.is_dup key w).0 ≡ ok true
  pub fetch : (p : String) (r : Request) (n : ℕ) (w : W) → IsHeld w → IsHeld (env.fetch p r n w).1
  pub units : (r : Request) (w : W) → IsHeld w → IsHeld (env.units r w).1
  pub agrees : (r : Request) (n : ℕ) (q : Quote) (w : W) → IsHeld w → IsHeld (env.agrees r n q w).1
  pub new_id : (w : W) → IsHeld w → IsHeld (env.new_id w).1
  pub insert_row :
      (id : String) (r : Request) (n : ℕ) (q : Quote) (w : W)
      → IsHeld w
      → IsHeld (env.insert_row id r n q w).1
  pub push : (id : String) (q : Quote) (w : W) → IsHeld w → IsHeld (env.push id q w).1

module _ {W : Type 0} (env : BridgeEnv W) {IsHeld : W → Type 0} {key : String}
    (keys : Keys env IsHeld key) where
  abbrev Holds : Tool W → Type 0
  Holds t = IsHeld t.world

  quote_provider-Holds :
      (p : String) (r : Request) (n : ℕ) (t : Tool W)
      → Holds t
      → Holds (quote_provider env p r n t).1
  unfolding quote_provider
  quote_provider-Holds p r n t h = asked-Holds (is_allowed env.minute (env.now t.world) p t.circ)
    where
      answered-Holds :
          (x : Result BridgeError Response × W) (u : Tool W)
          → IsHeld x.1
          → Holds (answered env p n x u).1
      answered-Holds (ok (offered fee dst_amount tx), w) u k = k
      answered-Holds (ok refused, w) u k = k
      answered-Holds (err e, w) u k = k

      asked-Holds : (a : Bool × Circuits) → Holds (ask_if env a p r n t).1
      asked-Holds (false, circ) = h
      asked-Holds (true, circ) = elim (Bool-cases (env.has_api p)) [
        | inl known ↦ rw known (answered-Holds _ _ (keys.fetch p r n t.world h))
        | inr unknown ↦ rw unknown h
      ]

  find_best-Holds :
      (ps : List String) (r : Request) (n : ℕ) (best : Option Quote) (t : Tool W)
      → Holds t
      → Holds (find_best env ps r n best t).1
  unfolding find_best
  find_best-Holds [] r n best t h = h
  find_best-Holds (p ∷ ps) r n best t h =
      find_best-Holds ps r n _ _ (quote_provider-Holds p r n t h)

  Keeps-outside :
      {A : Type 0} (act : Exec BridgeError W A)
      → ((w : W) → IsHeld w → IsHeld (act w).1)
      → Keeps Holds (outside act)
  Keeps-outside act h = record {
    at = λ t k. elim (Result-cases (act t.world).0) [
      | inl (a, e) ↦ rw (e, outside) (h t.world k)
      | inr (x, e) ↦ rw (e, outside) (h t.world k)
    ];
  }

  Keeps-guard : (b : Bool) (e : BridgeError) → Keeps Holds (guard b e)
  Keeps-guard true e = record { at = λ t h. h }
  Keeps-guard false e = record { at = λ t h. h }

  enqueue-Holds : (id : String) (q : Quote) → Keeps Holds (enqueue env id q)
  enqueue-Holds id q =
      Triple-bind (outside (env.push id q)) _ (Keeps-outside _ (keys.push id q))
        (λ _. record { at = λ t h. h })

  settle-Holds : (r : Request) (n : ℕ) → Keeps Holds (settle env r n)
  unfolding settle
  settle-Holds r n =
      Triple-bind (search env r n) _ (record { at = λ t. find_best-Holds env.providers r n none t })
        λ best. Triple-bind (or_raise best no_route) _ (Keeps-or_raise Holds best no_route) λ q.
          Triple-bind (outside (env.agrees r n q)) _ (Keeps-outside _ (keys.agrees r n q)) λ agreed.
            Triple-bind (guard agreed oracle_mismatch) _ (Keeps-guard agreed oracle_mismatch) λ _.
              Triple-bind (outside env.new_id) _ (Keeps-outside _ keys.new_id) λ id.
                Triple-bind (outside (env.insert_row id r n q)) _
                  (Keeps-outside _ (keys.insert_row id r n q))
                  λ _.
                    Triple-bind (enqueue env id q) _ (enqueue-Holds id q)
                      λ _. Keeps-pure Holds (returned id q r)

  held_after :
      {A : Type 0} (x : Result BridgeError A × Tool W) → Post Holds (λ _. Holds) x → Holds x.1
  held_after (ok a, t) h = h
  held_after (err e, t) h = h

  module _ (r : Request) (n : ℕ) (digest : env.digest r n ≡ key)
      (auth : (same_text r.auth "" || env.is_token r.auth) ≡ true)
      (valid : (env.knows_chain r.src && env.knows_chain r.dst && env.is_address r.to) ≡ true)
      (within : is_within n r.max_spend ≡ true) (units : (w : W) → (env.units r w).0 ≡ ok n) where
    refused_again : (t : Tool W) → Holds t → (quote env r t).0 ≡ err duplicate
    unfolding quote
    refused_again t h =
        let found = keys.found (env.units r t.world).1 (keys.units r t.world h) in
        rw (auth, valid, units t.world, within, digest, found) refl

    -- The world in which a new request has written its key.
    abbrev marked : Tool W → W
    marked t = (env.set_dup key (env.is_dup key (env.units r t.world).1).1).1

    came_through :
        (t : Tool W)
        → (env.is_dup key (env.units r t.world).1).0 ≡ ok false
        → quote env r t ≡ settle env r n (record t { world = marked t })
    unfolding quote
    came_through t new =
        let written = (keys.written (env.is_dup key (env.units r t.world).1).1).0 in
        rw (auth, valid, units t.world, within, digest, new, written) refl

    -- A request that came through its checks is refused as a duplicate when it comes again while its
    -- key lives, whatever became of it: also if no provider had a route, or the oracle did not agree.
    pub quote-duplicate :
        (t : Tool W)
        → (env.is_dup key (env.units r t.world).1).0 ≡ ok false
        → (quote env r (quote env r t).1).0 ≡ err duplicate
    quote-duplicate t new =
        let held = (keys.written (env.is_dup key (env.units r t.world).1).1).1 in
        let settled = (settle-Holds r n).at (record t { world = marked t }) held in
        refused_again (quote env r t).1 (rw (came_through t new) (held_after _ settled))
