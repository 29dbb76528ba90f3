-- ===== src/Gateway/AgentsLaws.antt =====
-- Proofs about the check of the owner.
use big_x.Base.{
  ◌≡◌, refl, ap, String, false, some, Option-cases, Bool-cases, inl, inr, ◌⊎◌, ◌∙◌, sym, subst,
}
use big_x.Base.Exec.{Result, ok, err, Result-cases}
use big_x.Resilience.Cache.{lookup, insert}
use big_x.Resilience.CacheLaws.{lookup-insert}
use big_x.Gateway.Agents.{
  uuid, differs, Agent, UpdateAgentRequest, Db, HttpError, http, unhandled, Env, assign, change,
  bad_gateway, update_agent, delete_agent, update_studio_agent_v1, publish_studio_agent_v1,
  unpublish_studio_agent_v1, refresh_agent,
}
use package.text.Mathlib.Text.{◌==◌}
use package.text.Mathlib.TextEquality.{eq_iff}

-- The operations behind the check.
pub data Operation : Type 0 where
  update studio_update : UpdateAgentRequest → Operation
  delete publish unpublish refresh : Operation

abbrev pub perform : Env → Operation → String → String → Db → Result HttpError Agent × Db
perform env (update r) agent_id user_id = update_agent env agent_id r user_id
perform env (studio_update r) agent_id user_id = update_studio_agent_v1 env agent_id r user_id
perform env delete agent_id user_id = delete_agent env agent_id user_id
perform env publish agent_id user_id = publish_studio_agent_v1 env agent_id user_id
perform env unpublish agent_id user_id = unpublish_studio_agent_v1 env agent_id user_id
perform env refresh agent_id user_id = refresh_agent env agent_id user_id

-- How the rows may differ after an operation: one row, of the user, whose owner stays the same.
abbrev pub OnlyOwn : String → Db → Db → Type 0
OnlyOwn user_id db db' =
    (u : String)
    → (lookup u db' ≡ lookup u db)
      ⊎ ((a : Agent) × (a' : Agent) × (lookup u db ≡ some a)
          × (lookup u db' ≡ some a')
          × (differs a.owner_id user_id ≡ false)
          × (a'.owner_id ≡ a.owner_id))

change-OnlyOwn :
    (env : Env) (f : Agent → Agent) (agent_id user_id : String) (db : Db)
    → ((a : Agent) → (f a).owner_id ≡ a.owner_id)
    → OnlyOwn user_id db (change env f agent_id user_id db).1
unfolding change
change-OnlyOwn env f agent_id user_id db same u = elim (Result-cases (env.parse_uuid agent_id)) [
  | inr (e, bad) ↦ inl (rw bad refl)
  | inl (v, good) ↦ elim (Option-cases (lookup v db)) [
    | inl missing ↦ inl (rw (good, missing) refl)
    | inr (a, found) ↦ elim (Bool-cases (differs a.owner_id user_id)) [
      | inl other ↦ inl (rw (good, found, other) refl)
      | inr own ↦ elim (Option-cases (env.commit_error (insert v (f a) db))) [
        | inr (e, failed) ↦ inl (rw (good, found, own, failed) refl)
        | inl done ↦ elim (Bool-cases (v == u)) [
          | inl here ↦
              rw (good, found, own, done)
                (inr (
                  a,
                  f a,
                  ap (λ x. lookup x db) (sym ((eq_iff v u).0 here)) ∙ found,
                  lookup-insert v u (f a) db ∙ rw here refl,
                  own,
                  same a,
                ))
          | inr there ↦
              rw (good, found, own, done) (inl (lookup-insert v u (f a) db ∙ rw there refl))
        ]
      ]
    ]
  ]
]

bad_gateway-same : (r : Result HttpError Agent × Db) → (bad_gateway r).1 ≡ r.1
bad_gateway-same (ok a, db) = refl
bad_gateway-same (err (http code detail), db) = refl
bad_gateway-same (err (unhandled e), db) = refl

caught-OnlyOwn :
    (user_id : String) (db : Db) (r : Result HttpError Agent × Db)
    → OnlyOwn user_id db r.1
    → OnlyOwn user_id db (bad_gateway r).1
caught-OnlyOwn user_id db r h = subst (OnlyOwn user_id db) (sym (bad_gateway-same r)) h

-- No operation, whatever it answers, changes a row whose owner is not the user, or the owner of a row.
pub perform-OnlyOwn :
    (env : Env) (op : Operation) (agent_id user_id : String) (db : Db)
    → OnlyOwn user_id db (perform env op agent_id user_id db).1
unfolding update_agent update_studio_agent_v1 delete_agent publish_studio_agent_v1
    unpublish_studio_agent_v1 refresh_agent
perform-OnlyOwn env (update r) agent_id user_id db =
    caught-OnlyOwn user_id db _ (change-OnlyOwn env (assign r) agent_id user_id db (λ a. refl))
perform-OnlyOwn env (studio_update r) agent_id user_id db =
    change-OnlyOwn env (assign r) agent_id user_id db (λ a. refl)
perform-OnlyOwn env delete agent_id user_id db =
    caught-OnlyOwn user_id db _ (change-OnlyOwn env _ agent_id user_id db (λ a. refl))
perform-OnlyOwn env publish agent_id user_id db =
    change-OnlyOwn env _ agent_id user_id db (λ a. refl)
perform-OnlyOwn env unpublish agent_id user_id db =
    change-OnlyOwn env _ agent_id user_id db (λ a. refl)
perform-OnlyOwn env refresh agent_id user_id db =
    caught-OnlyOwn user_id db _ (change-OnlyOwn env _ agent_id user_id db (λ a. refl))

-- The rows as the database gives them: each owner is a `uuid.UUID`.
abbrev pub Loaded : Db → Type 0
Loaded db = (u : String) (a : Agent) → lookup u db ≡ some a → (o : String) × (a.owner_id ≡ uuid o)

change-refused :
    (env : Env) (f : Agent → Agent) (agent_id user_id : String) (db : Db)
    → Loaded db
    → (e : HttpError) × (change env f agent_id user_id db ≡ (err e, db))
unfolding change
change-refused env f agent_id user_id db loaded = elim (Result-cases (env.parse_uuid agent_id)) [
  | inr (e, bad) ↦ (unhandled e, rw bad refl)
  | inl (v, good) ↦ elim (Option-cases (lookup v db)) [
    | inl missing ↦ (http 404 "Agent not found", rw (good, missing) refl)
    | inr (a, found) ↦
        let owner = (loaded v a found).1 in
        (http 403 "Not authorized", rw (good, found, owner) refl)
  ]
]

caught-refused :
    (db : Db) (r : Result HttpError Agent × Db)
    → ((e : HttpError) × (r ≡ (err e, db)))
    → (e : HttpError) × (bad_gateway r ≡ (err e, db))
caught-refused db r (http code detail, same) = (http code detail, ap bad_gateway same)
caught-refused db r (unhandled e, same) = (http 502 e, ap bad_gateway same)

-- While the owners in the table are `uuid.UUID` values, which never equal the text of a user's id,
-- every one of these operations is refused for every user, the owner too, and changes nothing.
pub perform-refused :
    (env : Env) (op : Operation) (agent_id user_id : String) (db : Db)
    → Loaded db
    → (e : HttpError) × (perform env op agent_id user_id db ≡ (err e, db))
unfolding update_agent update_studio_agent_v1 delete_agent publish_studio_agent_v1
    unpublish_studio_agent_v1 refresh_agent
perform-refused env (update r) agent_id user_id db h =
    caught-refused db _ (change-refused env (assign r) agent_id user_id db h)
perform-refused env (studio_update r) agent_id user_id db h =
    change-refused env (assign r) agent_id user_id db h
perform-refused env delete agent_id user_id db h =
    caught-refused db _ (change-refused env _ agent_id user_id db h)
perform-refused env publish agent_id user_id db h = change-refused env _ agent_id user_id db h
perform-refused env unpublish agent_id user_id db h = change-refused env _ agent_id user_id db h
perform-refused env refresh agent_id user_id db h =
    caught-refused db _ (change-refused env _ agent_id user_id db h)
