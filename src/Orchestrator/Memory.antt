-- ===== src/Orchestrator/Memory.antt =====
-- agents/memory_knowledge.py: portfolio, history and documents for the context.
use big_x.Base.{ℕ, String, some, List, []}
use big_x.Base.Json.{Json}
use big_x.Base.Exec.{pure, ◌>>=◌, ◌>>◌}
use big_x.Orchestrator.State.{AgentState, Doc}
use big_x.Orchestrator.World.{Env, Action, ask, portfolio_read, session_opened, embedded, queried}

-- The query of the history is still to be written in the source: it returns the empty list.
abbrev get_recent_history : Env → String → ℕ → Action (List Json)
get_recent_history env agent_id limit = do
  ask (λ tr. env.open_session tr) (λ _. session_opened)
  pure []

abbrev retrieve_relevant_docs : Env → String → ℕ → Action (List Doc)
retrieve_relevant_docs env query top_k = do
  embedding ← ask (λ tr. env.embed tr query) (λ _. embedded)
  ask (λ tr. env.query tr embedding top_k) (λ _. queried)

-- `MemoryKnowledgeAgent.run`
unfoldable pub memory : Env → AgentState → Action AgentState
memory env s = do
  portfolio ← ask (λ tr. env.get_portfolio tr s.agent_id) (λ _. portfolio_read)
  history ← get_recent_history env s.agent_id 10
  docs ← retrieve_relevant_docs env s.user_request 5
  pure (record s {
    context = record { portfolio = some portfolio; recent_history = history; relevant_docs = docs };
  })
