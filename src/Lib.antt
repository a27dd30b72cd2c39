-- ===== src/Lib.antt =====
-- The connector application: durable runs of an agent over Google services.
--
-- A user's request becomes a run, a row of agent_runs with its steps in agent_run_steps. A run whose
-- plan is risky waits for an approval, and one whose request is unclear waits for answers; a canary
-- may pin it to a candidate version; a decided run is queued; a worker process claims a queued run
-- under a lease, starts its steps one by one as their dependencies complete, executes each through the
-- model's tool calls, and closes the run. A write to a service has a contract, which says which tools
-- must have succeeded, and in which order.
--
-- The parts, and the code that each file is about:
--   Contracts             app/tools/contracts.py: WRITE_CONTRACTS and the tests on a trace of
--                         tool executions (write_contract_for, _failed, successful_required_tools,
--                         next_ordered_required_tool, missing_required_tools, contract_satisfied)
--   Contracts.Lineage     app/tools/contracts.py: bind_ordered_output_lineage
--   Contracts.Dispatch    app/agents/supervisor.py: the loop over the tool calls of one response
--   Runs                  the tables of migrations/versions/003_durable_runs_okf_improvements.py
--   Plans                 app/runs/schemas.py: PlanStep and ExecutionPlan; app/runs/planner.py:
--                         SERVICE_ORDER, OPERATION_TOOLS and validate_plan
--   Runs.Creating         app/runs/repository.py: create_run
--   Runs.Creating.Locking app/runs/repository.py: the transactions of create_run that overlap
--   Runs.Clarifying       app/runs/repository.py: clarify_run
--   Runs.Deciding         app/runs/repository.py: decide_run and cancel_run
--   Runs.Claiming         app/runs/worker.py: claim_run and _claim_step
--   Runs.Finishing        app/runs/worker.py: the write-back of a step, the exception handler and
--                         the end of execute_run, _remaining_unresolved_steps
--   Runs.Resuming         app/api/routes/runs.py: _reconcile_and_resume
--   Incident              app/runs/incident.py: completion_from_steps and build_incident
--   Reconciliation        app/runs/reconciliation.py: reconcile_failed_step
--   Budget                app/agents/context_budget.py: fit_messages_to_budget
--   Retry                 app/improvements/retry.py: candidate_retry_decision
--   Routing               app/improvements/routing.py: the canary resolvers
--   Improvements          the tables of an improvement proposal's life, from its review to production
--   Improvements.Deciding, Improvements.Activating, Improvements.Attesting
--                         app/api/routes/admin.py: the decisions of a reviewer, the activation of a
--                         canary, the promotion, and what is reported of a candidate
--   Improvements.Measuring  app/improvements/analyzer.py: assess_canary, evaluate_active_canaries
--                         and expire_stale_proposals
--   Improvements.Surfaces app/improvements/candidates.py: the runtime surfaces of a candidate
--   Improvements.Lifecycle  the steps of all of these, in any order
--   Coding                app/coding/repository.py: create_coding_run, decide_coding_run and
--                         cancel_coding_run; app/coding/worker.py: _claim and the updates at the
--                         end of _plan, _execute and _monitor_ci, and of a failure; the table of
--                         migrations/versions/015_durable_coding_runs.py
--   Coding.Retention      app/runs/retention.py: the statements of apply_retention on coding_runs
--   Coding.Cache          app/coding/cache_policy.py: the cache policies and entries
--   Windows               app/utils/tokenizer.py: token_count, truncate_tokens and token_windows
--   Packing               app/rag/context_packer.py: select_context_documents
--   Allocation            app/improvements/dp_allocation.py: select_workflow_options
--   Knapsack              the table of states that these two dynamic programs fill
--   Json                  the dicts, lists and scalars of tool results and of JSONB columns
--   Prelude               Boolean tests, list functions and their lemmas
-- The modules below these prove what their names say; the modules named Tests hold concrete runs.
--
-- A proposal to improve the application is reviewed, gets a canary that routes some users' runs to the
-- candidate (Routing), is measured against the control, and is promoted or rolled back, which gives
-- queued runs back to the control version.
--
-- State: a Db is the rows of four tables (Improvements has a Db of its own, which shares the rows of
-- runs and steps). A transaction of the source is one function from the tables to a result and the
-- new tables, so that an interleaving of processes is a sequence of transactions
-- (Runs.Finishing.Attempts.Reach, Runs.Finishing.Holding.Reach; for coding_runs, a list of rows of
-- its own, Coding.Approved.CodingReach; for proposals, Improvements.Lifecycle.Reach). fail_run and
-- close_run also join the statements that the source commits one after the other at the end of an
-- execution, and which lock nothing. create_run is a transaction that no other overlaps;
-- Runs.Creating.Locking has those that do, from the advisory lock to the commit, with the counts and
-- the assignment read at one moment (Runs.Creating.Limits.Reach). An UPDATE is update_where; SELECT ...
-- ORDER BY ... LIMIT 1 is least. Row locks that other transactions hold (FOR UPDATE SKIP LOCKED)
-- are a parameter of a claim. Ids are only compared and are numbers; instants are numbers of
-- seconds; weights and scores are ten-thousandths, whose sums are exact where the source adds
-- floats, and a percentage is kept as the weights that the source divides, without its rounding to
-- two digits. The gates of a canary are in floats: a float is the number that its bits spell, and
-- Python's division, sum and product are parameters. Loops are recursions on lists, but for the loop
-- of token_windows, which runs on one round of fuel more than there are tokens; each round but the
-- last moves on by at least one. Errors that the source raises are results: a division by a quantum
-- of 0 and an encoder that refuses a text are constructors of Knapsack.Answer and Windows.Windows.
--
-- The plan that is built from a request, the hashes, the encryption, the tokenizer and the UTF-8
-- codec, which may both refuse a text, float arithmetic, the https test of a URL, the outcome of the
-- coding commands, what a tool returns, the clock, the settings, the token estimate, the search of a
-- marker in a casefolded message and the verdict of the verifier are parameters.
-- Not modelled: columns that no modelled branch reads (timestamps of steps, summaries, token
-- counts), messages and payloads of events, heartbeats, the planner's text patterns, the provider
-- tools, the rest of retrieval, the builder of candidates and its CI attestation, which may rewrite a
-- proposal in any status and so are no steps of Improvements.Lifecycle, publishing, failure themes,
-- the HTTP layer beyond the manual resume, and everything that is not Python. A value of the wrong
-- JSON type where the source would raise an AttributeError reads as an empty dict.
pub mod Allocation
pub mod Packing
pub mod Knapsack
pub mod Windows
pub mod Prelude
pub mod Json
pub mod Contracts
pub mod Plans
pub mod Routing
pub mod Runs
pub mod Improvements
pub mod Incident
pub mod Coding
pub mod Reconciliation
pub mod Budget
pub mod Retry
