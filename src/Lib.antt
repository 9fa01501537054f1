-- ===== src/Lib.antt =====
-- transit_scholar: the research core of the repository, verified.
--
-- The program runs research Roles for an agent. An AgentRun in a Workspace owns ResearchSessions;
-- a session owns a ledger of queries, evidence, claims and links between them; a Role runtime asks
-- a language model for decisions and carries out their actions; retrieved candidates are reranked
-- in rounds that eliminate some of them.
--
-- Paths below are under src/transit_scholar/ where they do not say so.
--
-- Records: rows and contracts (src/transit_scholar/db/models.py, layer3/execution/models.py,
-- layer3/ledger/models.py, layer3/evidence). Store is the interface to a mapped table behind
-- SQLAlchemy's Session, with laws for get, add, assign, delete and select; Store.Memory is a
-- table in memory with those laws.
-- Execution: AgentRunService (layer3/execution/service.py), one function per method.
-- Ledger: ResearchQueryLedgerService (layer3/ledger/service.py), with a file each for the lookups,
-- queries, evidence, claims and links. A method takes the database and its arguments in the
-- source's order, and returns its result or exception with the database that it leaves.
-- Integrity: what holds of the tables between calls. History has a `Call` for every method that
-- writes, and a `Transaction` of what a session sees and what is committed, with the steps of its caller: calls,
-- commits and rollbacks. Beside the error of a refused row a method gives the database that the
-- session saw before; that SQLAlchemy then rolls the transaction back, and the session is of no use until a
-- rollback, is the step `settle` of History.
-- RoleRuntime: RoleRuntime.execute (layer3/runtime/role_runtime.py) with the state of
-- layer3/agent/models.py. State has the durable execution and what the runtime is given, Decide
-- `_decide`, Loop the loop over decisions and actions, Start recovery and the call as a whole.
-- Actions: the gateway through which a Role acts on the ledger (layer3/actions): the validator and the
-- dispatcher, over Execution and Ledger. The Role registry, the knowledge service and the invoker of
-- Roles are a `Gateway`.
-- Strategy: the retrieval strategies that a language model proposes (layer3/retrieval/models.py) and
-- the gate in front of their execution (layer3/planner/validation.py), with the planner that uses both.
-- Runner: LocalExecutionManager (api/runtime/manager.py), a block under its lock at a time; `step`
-- of Runner.Slot interleaves the blocks of any number of threads; `submit` is one thread's call, for each
-- answer of the executor (a refusal, a pending future, one that has finished when its callback is attached,
-- one that takes no callback).
-- Workspaces: WorkspaceService (layer3/workspace/service.py), the owner of Papers and runs. Workspaces
-- has its reads, creation, membership and archiving; Delete its deletion, with a World of what the
-- session sees, what is durable and the files; Calls sequences of calls, commits and rollbacks, in which the
-- caller rolls back after a refused row; Storage
-- the test on a directory's name (layer3/storage/paths.py). AgentRunService uses its guard.
-- RunRuntime: RunResearchRuntime.execute (layer3/runtime/run_runtime.py), the loop that plans the
-- research sessions of a run. Plan has the plans and decisions (layer3/planning/models.py), State the
-- durable state and the environment (layer3/run_context/models.py), Turn and Planning the parts of a round,
-- Session a session new or resumed, Run the rounds and the call; Sane is what they keep.
-- Trace and States: AgentTraceService (layer3/trace/service.py) and ResearchStateService
-- (layer3/state/service.py), over the same tables.
-- Fusion: fuse_hybrid (layer2/retrieval/fusion.py), the fusion of two searches and its reranking.
-- Rerank: the elimination schedule (layer3/rerank/scheduler.py).
-- Base: helpers, among them `str.strip` on native strings and the integers of the source.
--
-- Fuel: `decide` runs `max_llm_calls - llm_calls + 1` rounds, since every round but the last spends
-- one of the calls that are left; `run` runs `max_steps - current_step + 2` rounds of the loop, since
-- every round but one for a recovered output and the last spends a step; `begin` of RunRuntime runs
-- `max_run_steps - run_steps + 1` rounds, since every round counts a step. A function that runs out
-- of fuel returns `none` or `no_fuel`, and the results below show that it does not happen.
--
-- Not modelled: times and the order of listings, concurrency of several database sessions, a store
-- or a trace that raises while a boundary is saved, an action planner that raises or changes state,
-- the language models, the HTTP API, PDF parsing, indexing and the user interface.
pub mod Base
pub mod Store
pub mod Records
pub mod Execution
pub mod Ledger
pub mod Integrity
pub mod RoleRuntime
pub mod Strategy
pub mod Runner
pub mod Actions
pub mod Rerank
pub mod Fusion
pub mod Workspaces
pub mod RunRuntime
pub mod Trace
pub mod States
