-- ===== src/Pipeline/Memory.antt =====
-- `MemoryKnowledgeAgent` of contracts/planning_pipeline.py.
use big_x.Base.{String, some, List}
use big_x.Base.Exec.{pure, raise, ◌>>=◌, ◌>>◌}
use big_x.Orchestrator.State.{AgentState, Context, Doc}
use big_x.Pipeline.World.{
  Exc, memory_retrieval, transient, Env, Action, ask, update, catch, log_step, no_circuit, retried,
  memory_role, succeeded, step_failed, portfolio_read, history_read, embedded, queried,
}

abbrev pub set_context : Context → AgentState → AgentState
set_context context s = record s { context = context }

module _ (env : Env) where
  -- `_retrieve_relevant_docs`
  abbrev pub retrieve_docs : String → Action (List Doc)
  retrieve_docs query = do
    embedding ← retried (no_circuit env) 2 (ask (λ tr. env.embed tr query) (λ _. embedded))
    retried (no_circuit env) 2 (ask (λ tr. env.query tr embedding 5) (λ _. queried))

  -- The body of the `try`.
  abbrev pub gather : AgentState → Action Context
  gather s = do
    portfolio ←
        retried (no_circuit env) 2
          (ask (λ tr. env.get_portfolio tr s.agent_id) (λ _. portfolio_read))
    history ← ask (λ tr. env.recent_history tr s.agent_id 10) (λ _. history_read)
    docs ← retrieve_docs s.user_request
    pure (record { portfolio = some portfolio; recent_history = history; relevant_docs = docs })

  -- `except TransientDependencyError`; other exceptions pass.
  abbrev pub refuse : Exc → Action Context
  refuse (transient e) = log_step env memory_role (some step_failed) >> raise (memory_retrieval e)
  refuse e = raise e

  -- `MemoryKnowledgeAgent.run`
  unfoldable pub run_memory : Action (Unit {0})
  run_memory m =
      (do
        context ← catch (gather m.state) refuse
        update (set_context context)
        log_step env memory_role (some succeeded))
        m
