-- ===== src/Lib.antt =====
-- A model of Big-X's services: the agents that turn a user's request into transactions, the gateway in
-- front of them, and the limits on what they may do.
--
-- A request comes to the gateway (apps/api-gateway), whose middlewares limit the rate and check roles,
-- goes through the guardrail (services/guardrail_service) and on to the orchestrator
-- (services/agent-orchestrator). There five agents share a state: the planner asks an LLM for
-- subtasks, memory gathers context, the simulator asks the policy engine, the executor submits, and
-- the critic decides on the next subtask, a retry or the end. contracts/ holds a second version of the
-- five agents, with retries, circuit breakers and a cache around their calls. The wallet service
-- (services/wallet_service) limits what an agent spends in a day, and the bridging service
-- (services/bridging_service) attests deposits of Bitcoin.
--
-- Base          shared names: lists and signed integers over the native numbers, texts, JSON values, a
--               monad of state and exceptions that keeps the state on a raise (Exec), and partial
--               specifications of its actions (Triple)
-- Orchestrator  services/agent-orchestrator/src: agents/state.py (State), agents/planner.py (Planner),
--               agents/memory_knowledge.py (Memory), agents/simulator.py (Simulator),
--               agents/executor.py (Executor), agents/critic.py (Critic), graph/langgraph_flow.py
--               (Graph), main.py (Service, Local). Each class's run is one function of the state
-- Resilience    contracts/resilience.py: CircuitBreaker (Breaker), with_retry (Retry), TTLCache (Cache)
-- Pipeline      contracts/planning_pipeline.py (Planner, Memory, Simulator), execution_review.py
--               (Executor, Critic), agent_graph.py (Graph), schemas.py (Planner), exceptions.py (World)
-- Gateway       shared/api/rate_limit.py (RateLimit); apps/api-gateway/src/middleware/rbac.py (Rbac);
--               of apps/api-gateway/src/main.py the endpoints that change an agent (Agents), and those
--               that sign a wallet in (Login) and sell an agent (Market)
-- Guardrail     services/guardrail_service/src: context_sanitization.py, intent_check.py (Sanitize),
--               abuse_detection.py, policy_check.py, main.py (Checks)
-- Wallet        services/wallet_service/src: spend_limits.py (SpendLimits), _with_resilience of
--               mpc_wallet.py (Mpc)
-- Signing       contracts/wallet_service.py: NonceManager (Nonces), RPCHealthManager (Providers),
--               RPCLoadBalancer (Balancer)
-- Tools         services/tool_router/src/tools: bridge_tool.py (Bridge), defi_tool.py (Defi)
-- Bridging      services/bridging_service/src/btc_custody.py (Custody)
-- Chain         blockchain/smart_contract_integration/blockchain_client.py: what it uses of web3 (Web3), the
--               state and the way to a provider (Client), NonceManager (Nonces), the loop that call and
--               send share (Loop), call with that of services/shared/src (Calls), GasStrategy and send
--               (Sends); services/shared/src/agent_registry_client.py (Registry); proofs over every
--               step of an attempt (Frame, Numbering, Attempts)
-- Backend       backend_service_layer/main.py: the nonces and verify_siwe (Siwe)
-- Events        infra/docker/RabbitMQ/rabbitMQ.py: the consumer (Consumer) with what settles a delivery
--               (Settled), the queues and the steps of the broker between them (Network)
-- Redis         infra/docker/redis/redis_client.py (Client)
-- Risk          services/risk_policy_engine/src/gas_optimizer.py (Gas)
-- Reasoning     services/ai_reasoning/embedding.py, the splitter of texts (Chunks)
--
-- The outside (the LLM, the chain, the policy engine, the vector store, databases, Redis, the clock,
-- JSON and Unicode) is a record of functions that the definitions take. In Orchestrator, Pipeline and
-- Guardrail the answer of a call may depend on the log of all calls before it, so the theorems hold
-- for any behaviour of the outside. A Python exception is an error result beside the state that was
-- written before it.
--
-- LangGraph's run of a graph is a recursion on the number of steps that its limit leaves. For the
-- orchestrator (3 + 3 * bound) * (max_retries + 1) steps are enough if plans have at most `bound`
-- subtasks. The retry loops recurse on the attempts that are left, the monitor of
-- deposits on the rounds it makes, the splitter of texts on a number of rounds, the deliveries of a
-- failing message on fuel above the retries that are left, and every other loop on a list.
--
-- Numbers of JSON are opaque codes. Amounts of money are integers of cents, and times are readings of
-- a clock in its smallest unit: the rounding of floats is not modelled. Logging and tracing are left
-- out. Not modelled: the endpoints of the gateway that only read rows or pass a request on, the
-- bridge clients, the other tools, the event listener, retrieval, the tokens, the market and the
-- payments of backend_service_layer, the session keys, the queue, the confirmation worker and the detection of reorganisations of
-- contracts/wallet_service.py,
-- the database schema beyond the rows that are used, deployment scripts and the web frontend.
pub mod Base
pub mod Orchestrator
pub mod Resilience
pub mod Pipeline
pub mod Gateway
pub mod Guardrail
pub mod Signing
pub mod Tools
pub mod Wallet
pub mod Backend
pub mod Bridging
pub mod Chain
pub mod Events
pub mod Reasoning
pub mod Redis
pub mod Risk
