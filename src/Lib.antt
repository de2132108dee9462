-- ===== src/Lib.antt =====
-- Workflow server: a verification library of its workflow engine.
--
-- The program runs workflows, graphs of steps. internal/engine/executor.go builds the graph of a workflow
-- from its edges and from the references in the steps' configs, runs the steps in waves, follows their
-- results along the edges, skips the branches that a condition did not take, and ends with a status.
-- internal/engine/resolver.go resolves the expressions in configs against the context of
-- internal/engine/context.go; internal/engine/runner.go and internal/engine/runners hold what runs a step;
-- internal/engine/events.go broadcasts what happens.
--
-- Files:
-- - Prelude and Prelude/*: names of the libraries that are passed on, Boolean tests, lists, counting,
--   Go's int, texts as lists of code points, maps.
-- - Value and Value/*: Go's `any` as JSON and the runners make it, with `%v` and `%T`.
-- - Engine/Errors: the errors of internal/engine by what they say, and the result of fallible code.
-- - Engine/Template: the two regular expressions of internal/engine/resolver.go as matchers, and in its
--   children what the expressions find, said without a matcher.
-- - Engine/Context: internal/engine/context.go (ExecContext, SetStepOutput, GetStepOutput, SetSecret, SetEnv).
-- - Engine/Refs: ExtractStepRefs. Engine/Resolver: ResolveExpression and its parts.
--   Engine/Interpolate: ResolveString, ResolveMap and resolveValue.
-- - Engine/Types: the rows, events and runners that the executor works on, and its effects.
-- - Engine/Attempts: executeStep, failStep and retryDelay of internal/engine/executor.go.
-- - Engine/Graph: the part of executeDAG that builds the graph.
-- - Engine/Skip: the variables of executeDAG's loop, and skipBranch.
-- - Engine/Clock: what the reads of ctx.Err() meet. Engine/Dag: one round of the loop.
--   Engine/Loop: the loop. Engine/Execution: its start, its end, and executeDAG as a whole.
-- - Engine/Executor: Execute and Cancel on the tables and the map of cancel functions, one call after the
--   other.
--   Engine/Executor/Overlap: the queries and insertions of calls that overlap, as moves in any order.
-- - Engine/Waiting: WaitForCompletion beside the goroutine of one execution, as steps of the two.
-- - Engine/Safety/*, Engine/Trace: what the loop keeps, and what a trace shows.
-- - Engine/EventBus: internal/engine/events.go.
-- - Runners/*: internal/engine/runners, one file for runners that are alike, and the registry.
-- - Trigger/Cron: internal/trigger/cron.go over the package github.com/robfig/cron, which is a record of its
--   operations and one of its laws.
-- - Trigger/Webhook: internal/trigger/webhook.go and manual.go over Execute and WaitForCompletion, with the JSON
--   column of an output as a record with laws.
-- - Executions/*: Cancel and List of internal/execution/handler.go, over uuid.Parse, time.Parse and the query.
-- - Shared/*: internal/shared, with strconv.Atoi. Shared/Cursor: over JSON and base64 as a record with laws.
-- - Workflows/Tables: the tables of ent/schema. Workflows/Database: the statements, and the database with its
--   transactions as a record of operations and one of laws. Workflows/Repository: internal/workflow/repository.go.
--   Workflows/Service: Clone of internal/workflow/service.go. Workflows/Requests, Workflows/Handler: the handlers
--   of internal/workflow/handler.go that write, over the database and the cron scheduler, with the start of
--   cmd/server/main.go.
-- - Secrets/*: internal/secret, over the ciphers of the standard library as a record of operations and one of laws.
-- - Notifications: internal/notification/dispatch.go. Notifications/Inbox: handler.go there, on the table of
--   notifications.
-- - Ai/*: enrichResult and scanForSecrets of internal/ai/handler.go.
-- - The modules called Samples and Witnesses, Engine/ExecutorWitnesses, Engine/WaitingWitnesses,
--   Trigger/WebhookWitnesses and Workflows/HandlerWitnesses: small inputs, tests and instances.
--
-- State and effects. The variables of executeDAG are the record Run, passed from step to step. What it
-- does to the outside (updates of rows, events, sleeps, the end of the execution, the notification) is a
-- list of effects in order; an update stands for the call, whether or not the database accepts it (in
-- Engine/Waiting the update that ends the row is taken or not). The steps of a wave run at once in the
-- program; they only read the context, so their results do not depend on how they interleave, and their effects stand here one step after the other. What the runners answer
-- may depend on the step and the attempt. The order in which `range` visits a set of references, the text
-- of an id, uuid.Parse, the shortest form of a float, encoding/json, the decryption of secrets and the
-- moments of a cancellation or a timeout are parameters.
--
-- Bounds. The loop is a recursion on a number of rounds, one more than the workflow has steps: each round
-- marks a step as done. skipBranch is a recursion on a depth, one more than there are edges and steps:
-- each level marks a step. That both suffice is among the results. Go's int is an integer without bounds
-- where the program counts steps; the number of attempts, which a request can ask for, and the delay between
-- them keep their 64 bits.
--
-- Not modelled: requests to the other handlers that overlap; the runners that wait for the network or the
-- clock; the handlers that only read, but the two called List of the executions and the notifications, and
-- those of step types, users and the database's tables; the queries through ent (generated code); the
-- websocket; the sessions of the identity provider; the prompts of the AI assistant and its calls; logs
-- and the times that rows keep, but those that List filters or orders by; the web client.
pub mod Prelude
pub mod Value
pub mod Engine
pub mod Runners
pub mod Trigger
pub mod Shared
pub mod Workflows
pub mod Secrets
pub mod Executions
pub mod Notifications
pub mod Ai
