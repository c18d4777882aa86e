-- ===== src/Lib.antt =====
-- mergecrew runs crews of LLM agents on a repository. A daily run walks through workflows; a workflow's agents are
-- dispatched as steps, in parallel or along a graph; a runner executes each step and replies with an outcome, and the
-- orchestrator records it, pauses, advances or ends the work. This library models the parts that decide.
--
-- Parts and files:
-- - Graph: packages/domain/src/graph-profile.ts. Graph.validate_graph_definition is validateGraphDefinition,
--   Graph.find_graph_entry_node and Graph.find_next_graph_node are findGraphEntryNode and findNextGraphNode,
--   Graph.roster_graph and Graph.careful_graph the stock graphs. Graph/Laws is about the choice of the next node,
--   Graph/Valid about what validation guarantees.
-- - Exec: a handler is a function from the state to a result and the state that it leaves, so what was written before
--   an exception stays written. Exec/Preserves has the rules by which a handler preserves a predicate of the state.
-- - Orchestrator: apps/orchestrator/src/orchestrator.ts. Orchestrator/Store has the rows of packages/domain/src/run.ts
--   and of the tables, the jobs and the events, and the writes of Prisma as operations on lists of rows.
--   Orchestrator/Dispatch has enqueueRunnerStep, failStepNoRunner, dispatchAgentStep and handleOrgCapWait;
--   Orchestrator/Flow resolveProjectGraph, dispatchGraphEntry, dispatchGraphNext, startWorkflow, completeWorkflow,
--   completeRun and maybeAdvanceWorkflow; Orchestrator/Replies onStepReply, resumeRateLimit and resumeGate. A Scope is
--   the ids that these functions pass on. The Keeping modules say once which writes each handler consists of, and the
--   invariants (Dispatch/Cap, Replies/Cap, Replies/Isolation, Replies/Siblings) are instances of them. Flow/Round says the
--   fan-in's decision of the node's steps.
--   Orchestrator/RunStart is handleRunDue, and Orchestrator/Sweeper apps/orchestrator/src/heartbeat-sweeper.ts, on the
--   same database; Orchestrator/Watchdog apps/worker-cron/src/stuck-run-watchdog.ts. Orchestrator/System is
--   apps/orchestrator/src/main.ts: the handlers as messages in any order, with the invariants of all reachable states
--   (System/Cap, System/Unique). The ids of new rows, which the database gives, are counted up from the state's next id.
--   Store/Rows, Store/Tables and Store/Ids have the lemmas on writes of rows.
-- - Config: packages/domain/src/lifecycle.ts. Config/Merge is packages/config-yaml/src/merge.ts, and Config/Sync
--   apps/orchestrator/src/lifecycle-sync.ts, which handleRunDue calls first.
-- - Api: apps/api/src/modules/run (Api/Runs: runNow, get and cancel) and approval (Api/Approvals), behind the guard of
--   roles (Api/Roles), on the orchestrator's database with the API's own queues. Api/System puts the requests of users
--   beside the orchestrator's messages, in any order. Keeping says once which writes a request consists of.
--   Runs/Accepts, Runs/Starts and Runs/Cancels are about single requests, Approvals/Once and System/Ids about all of them.
-- - Runner: apps/runner/src/cancellation.ts (Runner/Cancellation; Cancellation/Replay is about any operations) and
--   mergeIntoSummary of test-summary.ts (Runner/Summary).
-- - Patch: packages/adapters-vcs/src/parse-patch.ts; Patch/Numbers is about the numbers of the lines.
-- - Eval: packages/eval-fixtures/src/compare.ts: Eval.parse_diff is parseDiff, Eval/Compare compareSnapshot with
--   overlap and normalize. Eval/Accepts says when a diff passes, and Eval/Same compares a diff with itself.
-- - Budget: packages/agent-runtime/src/budget.ts (BudgetTracker) and clampBudgetForRun of
--   packages/domain/src/stock-agents.ts.
-- - Llm: packages/llm/src. Llm/Breaker is circuit-breaker.ts; Llm/Router is router.ts with the lookup of registry.ts and
--   capabilitiesFor of models.ts, and Llm/Refs the cut of a candidate's text. The router asks the breaker.
-- - Changes: packages/domain/src/blast-radius.ts and risk-score.ts (Changes/Radius), auto-promote.ts
--   (Changes/Promote, and Changes/Versions for isPatchBump), apps/runner/src/risk-chip.ts (Changes/Chip),
--   parse-package-diff.ts (Changes/Manifest, with the texts' way to the matcher in apps/runner/src/step.ts).
-- - Policy: packages/agent-runtime/src/policy.ts. Policy/Glob is minimatch with globToRegExp, Policy/Glob/Meaning what
--   a glob means, read off its text, and Policy/Glob/Decides that the matcher decides it, by way of what the compiled
--   atoms take (Policy/Glob/Fits). The matching of a regular expression itself is JavaScript's.
-- - Egress: the host allowlists. Egress/Resolver is apps/runner-dns/src/allowlist.ts, Egress/Proxy
--   apps/runner-egress-proxy/src/allowlist.ts, Egress/Skill packages/skills/src/egress-policy.ts; Egress/Allows says what
--   a pattern means, and Egress/Agree compares the three. Egress/Settings is parseAllowlistEnv, and Egress/Connect
--   parseConnectTarget and the decision of handleConnect, of which Egress/Connect/Safe says where it connects.
-- - Calls: packages/skills/src/policy-engine.ts and the gates of packages/skills/src/executor.ts.
-- - Dns: apps/runner-dns/src/dns-message.ts, and Dns/Server the handler of apps/runner-dns/src/main.ts, which asks
--   Egress/Resolver. Dns/Encode is how a client writes a query.
-- - Base: Boolean tests on numbers, arrays as lists with their searches, the libraries' names.
-- The modules named Tests run the definitions on concrete input.
--
-- Bounds and fuel: the loops run over lists and are structural recursion, but for the reader of DNS names. Its loop has
-- the source's own bound of a hundred rounds, and its call of itself for a pointer takes a frame of the stack from an
-- argument; one frame is enough without pointers, and in general one more than the pointers followed. Numbers
-- are natural numbers without a bound: ids, counts, milliseconds, tokens, and money in whole units of its smallest
-- part. Subtraction stands only where the source takes the maximum with 0 or compares with a positive bound.
--
-- Parameters, for code that is not in this repository: the YAML parser with the schema check (parse_yaml), the glob
-- library picomatch (matches, matches_any), the URL parser (hostname), the JSON parser (parse_json) with the names of
-- places and the characters of a text (index_name, chars), JavaScript's trim, HMAC with base64url and JSON (a Codec),
-- the configuration's parser and the repository's answer (parse, fetch), and random values (the jitter in a reply, the
-- nonce of a token). Of this repository's, the handlers
-- of the orchestrator take what the synchronization of the lifecycle stores as an argument (sync), which Api/Runs/Starts
-- fills in with Config/Sync, and the list of regular expressions of risk-chip.ts stands as one test of a path
-- (sensitive). The time, the environment's settings and the runner profiles are fields of the database. Host names and
-- DNS labels are ASCII texts for the change to lower case.
--
-- Not modelled: that the service handles several messages at once, so that the reads and writes of two handlers mix (a
-- handler runs to its end here before the next starts); log lines, telemetry, the texts of events that are copied from a
-- step's output; manual dispatch, webhooks and digests; the sockets of the egress proxy; how configuration files are
-- parsed; the tools of skills, the agent loop, adapters, the rest of the HTTP API, the web application and the services
-- around the runner, which are input and output around third-party code. The row-level security of withTenant is
-- modelled where a job or a request names a project or a run that it starts, reads or cancels; elsewhere the ids of a
-- message are taken to be its tenant's.
pub mod Base
pub mod Exec
pub mod Graph
pub mod Budget
pub mod Llm
pub mod Changes
pub mod Policy
pub mod Egress
pub mod Dns
pub mod Calls
pub mod Config
pub mod Orchestrator
pub mod Api
pub mod Runner
pub mod Patch
pub mod Eval
