-- ===== src/Lib.antt =====
-- headcount1 runs teams of LLM agents on tasks. A server (server, main.go) keeps tasks, runs,
-- users and sessions in a database through repositories (db/repository), an engine (engine) runs
-- agent sessions and resumes interrupted ones, agents reach models through a gateway (integration)
-- with a token of their run (pkg/runtokens), a hub (eventhub) sends events to the browsers, and an
-- updater (pkg/updater) replaces the running binary.
--
-- The parts that are modelled, by file:
--
-- Tasks.antt, Relations.antt and the files under Relations: db/models/task.go and
-- db/repository/task_relation_repository.go. A task and a relation are rows; CreateTaskRelation is
-- create_task_relation, a chain of the checks in the source's order, dependencyPathExists is the
-- breadth-first search path_loop, CanStartTask is can_start_task.
--
-- Tasks/Updates.antt and the files under it: db/repository/task_repository.go.
--
-- Tokens.antt and the files under Tokens: db/repository/refresh_token_repository.go and
-- session_repository.go. RotateRefreshToken is rotate_refresh_token, with one definition for each
-- part of its transaction; GetSessionUser is get_session_user.
--
-- Runs.antt, Runs/Queries.antt, Runs/Resume.antt and the files under Runs/Resume: db/repository/run_repository.go and
-- the causes of ResumeSession in engine/native_engine.go. ClaimRunForResume, MarkRunResumeStarted
-- and MarkRunStale first read a row and then make a conditional update; the model passes the table
-- of the read and that of the update separately, so that other calls may come in between.
--
-- RunEvents.antt and RunEvents/Answers.antt: db/repository/run_event_repository.go, with the two
-- unique indexes of its table from db/migrations. EnqueueRunEventReturning also reads one table and
-- inserts into another.
--
-- RunTokens.antt and RunTokens/Refinement.antt: pkg/runtokens/runtokens.go, with the two maps as
-- functions and the hash as a parameter.
--
-- EventHub.antt and EventHub/Streams.antt: eventhub/hub.go. The clients are a function from
-- connection numbers, a client's queue is a list, and JSON encoding is a parameter.
--
-- Keyring.antt and Keyring/Sealing.antt: pkg/secrets/keyring.go, userkeys.go and, of secrets.go,
-- Decrypt, gcmSeal and gcmOpen. Go's AES-GCM and base64 are parameters; the nonce before the
-- ciphertext and the text "<user>:<base64>" are written out, with the decimal text of a number and
-- its parsing from Prelude/Decimals.antt.
--
-- Updater.antt and the files under Updater: pkg/updater/state.go, with the state file as a value
-- and the release folder as a list of entries; the path of a release gives its id by a parameter.
--
-- Migrations.antt, Migrations/Plans.antt, Migrations/Execution.antt and the files under it:
-- db/migrations/reconcile.go and migrator.go. PlanReconciliation is plan_reconciliation, whose two
-- indexes are the rests of the two histories; the history of each schema is a list of revisions, and
-- the effect of SQL, the splitting into statements and the forward executor are parameters.
--
-- Router.antt and the files under Router: integration/group_router.go and
-- db/repository/model_group_member_repository.go. recordOutcome is record_outcome, orderCandidates is
-- order_candidates, a stable sort by the source's comparison, and serveGroupChatCompletions is
-- serve_group, with the answers of the providers as a parameter.
--
-- EnvStore.antt and the files under EnvStore: pkg/envstore/envstore.go, and persistDeliveredEnv of
-- server/controllers/deploy.go. Maps are lists of pairs, the environment of the process is a function,
-- and the digest is a parameter.
--
-- Deploy.antt and the files under Deploy: DeployWebhook and deployDecision of
-- server/controllers/deploy.go. The reply is a value, and the calls of the updater are recorded in
-- the state of the server.
--
-- Access.antt and the files under Access: server/controllers/api.go and authz_mw.go, and, in
-- Access/Gateway.antt, integration/gateway_auth.go. Each authorize function is a definition over the
-- tables; the loaders are one definition by the kind of the row.
--
-- Workers.antt and the files under Workers: engine/aicli/tools.go and engine/worker_policy.go, and, in
-- Workers/Roles.antt, engine/tool_policy.go and engine/agentconfig/roles.go. A tool registry is the
-- list of its tools; JSON decoding, trimming and the case-folding comparison are parameters.
--
-- Agents.antt and the files under Agents: engine/aicli/agent.go, client.go and history_log.go, and the
-- entry of a message in pkg/logging/proxy_logger.go. RunWithHistory is run_with_history: a step works on
-- the history and on the session, which holds the log and the world, and stops or goes on. Complete is
-- complete, pruneHistory is prune_history, and the readers of the log work on the list of its lines. The
-- provider, the tools, the hooks and the clock are fields of Host. Its tools are looked up in the
-- registry of Workers.antt.
--
-- Orchestrator.antt and the files under Orchestrator: runOrchestrator and orchestratorFinishTask of
-- engine/orchestrator.go, with FindPendingHumanQuestion of db/repository/comment_repository.go and the
-- queries of db/repository/run_event_repository.go. A round of the loop is round: decide tests the
-- tables, act lets the model work on them, and conclude consumes events. It stands on the rows of
-- Tasks.antt, Runs.antt and RunEvents.antt. The model is a parameter.
--
-- Prelude.antt and the files under Prelude: shared tests, lists, results and tables. A database
-- table is a list of rows in the order of the primary key; a statement with a condition is one of
-- first, find, update, delete and count. A statement that the database refuses to run (lost
-- connection, timeout) is not modelled, nor are the parts of a query that only load associated rows.
-- Instants are natural numbers of nanoseconds, and the clock's reading is an argument.
--
-- Bounds: the dependency search takes as fuel the number of relations plus one, since each
-- round takes one entry off the queue and each relation enters it at most once; the ancestor check makes at most 100 hops, like the source. A client's queue holds 1024
-- messages, like the source. The loop of an agent makes at most 300 turns, like the source, and the client one attempt more than it has
-- retries. The cooldown of the router keeps the 64-bit shift of the source.
--
-- Not modelled: input and output (HTTP, WebSocket frames, files, processes, model calls), the user
-- interface, and the parts of the code that the files above do not name.
pub mod Prelude
pub mod Access
pub mod Agents
pub mod Deploy
pub mod EnvStore
pub mod EventHub
pub mod Keyring
pub mod Migrations
pub mod Orchestrator
pub mod Relations
pub mod Router
pub mod RunEvents
pub mod RunTokens
pub mod Runs
pub mod Tasks
pub mod Tokens
pub mod Updater
pub mod Workers
