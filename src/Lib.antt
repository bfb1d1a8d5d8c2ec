-- ===== src/Lib.antt =====
-- llmdevsilo: a harness that runs a language model's coding session in a sandbox, behind an
-- intercepting proxy.
--
-- Parts. A session (crates/silo-harness) drives conversations with a backend; the tools that the
-- model calls run in the sandbox, in the frontend or in the harness itself
-- (crates/silo-core/src/tool.rs routes them), and every step is journalled and broadcast. The user
-- stops a turn
-- by an interrupt and the session by a shutdown. The sandbox reaches the network only through the
-- proxy and the DNS filter (crates/silo-proxy), which apply a domain allowlist and an IP guard,
-- add credentials that the sandbox never sees, and journal metadata. A backend's usage is metered
-- against a quota. When a workspace is unlocked, its changes are listed and the files that the
-- host might execute are flagged (crates/silo-workspace). A client of the interactive frontend is
-- paired by a one-time code. A workspace is locked, attached to a harness and to shells, and
-- unlocked, by processes that share a registry. Entries of the read allowlist that show secrets
-- are refused. A journal can be made into a script for mock components.
--
-- Files. Prelude has the shared tests, list lemmas, equality, texts and families indexed by
-- numbers.
--   Core/Tool, Core/Conversation, Core/Journal: crates/silo-core/src/tool.rs, conversation.rs,
--     journal.rs; functions keep their names.
--   Harness/Shutdown: crates/silo-harness/src/shutdown.rs, the channel as the list of the commands
--     that have arrived.
--   Harness/Session, Harness/Tools, Harness/Agent: crates/silo-harness/src/agent.rs. `drive_inner`
--     is a loop of `round`s, each cut at the code's returns: `complete_turn` (the match on the
--     completion), `respond` (up to the tool calls), `run_calls` (the for loop), `after_calls` (what
--     follows it). The session is the shutdown signal, the log, and the moment, which counts how
--     often the loop has looked for commands; the backend, the tools and the arrival of commands are
--     functions of the moment, so a choice of these functions is one interleaving.
--   Harness/Children: the subagents of agent.rs. An agent is its number; the state has each
--     child's task, whether its abort was asked for, its flag and the place of its handle (its
--     parent's pool, an AwaitAgent call, a cancellation, or nowhere), the free slots and the notices
--     on the bus. A run is a list of moves of the agents' tasks, in any order: a spawn, an AwaitAgent
--     call up to its wait, the end of a wait, the end of a child's task, and the parts of
--     `cancel_uncollected_children`: it takes a pool, asks for an abort, goes on after a join; an
--     aborted task is dropped at some later time, with the handles that it has, and until then it
--     may still spawn. The swap of a child's flag and the event of whoever wins it are one move.
--     Children/Tools is `run_agent_tool` and `run_await_agent_tool`.
--   Proxy/IpGuard, Allowlist, Credentials, Upstream, Target, Serve, Dns: the files of
--     crates/silo-proxy/src of the same names, where Target (the parsing) and Serve (the connection) are
--     proxy.rs. A connection is the list of its actions: journal records, replies, dialled addresses
--     and request heads sent.
--   Workspace/Manager: the registry of crates/silo-workspace/src/lib.rs and registry.rs, as a
--     function from canonical paths to entries. Each operation is a function of one entry
--     (`.._entry`), cut where the code gives the registry's lock up: `lock` is `lock_reserve` and
--     `lock_commit`, `unlock` is `unlock_begin` and `unlock_end`; Manager/Attachments has the rest.
--     Manager/Steps puts the operations of several processes in a row.
--   Workspace/AutoExec, Workspace/Diff: crates/silo-workspace/src/autoexec.rs and diff.rs.
--   Core/Risk: crates/silo-core/src/risk.rs and crates/silo-harness/src/validate.rs, with a path
--     as the list of its components.
--   Core/Replay: crates/silo-core/src/replay.rs; Replay/FromJournal is `script_from_journal`.
--   Core/Cost, Core/EventBus: crates/silo-core/src/cost.rs and event.rs. `emit` is three functions,
--     cut where it gives up the lock of the history, which EventBus/Interleaved puts in any order.
--   Frontend/Pairing: the pairing codes of crates/silo-frontend/src/interactive/auth.rs.
--
-- Bounds. Ports, octets and segments are natural numbers, with their bound where a theorem needs
-- it; the counts of interrupts, of tokens and of agents wrap at 2 ^ 64. Texts are code points,
-- taken as the bytes of ASCII. The agent loop runs on fuel; Harness/Agent/Turns shows what fuel is
-- enough. All other loops are structural.
--
-- Parameters. Header maps (the http crate, with its laws as fields of `Headers`), name resolution,
-- sockets and TLS, the parsing of IP literals, JSON values (what Core/Replay needs
-- of them is a type of its own), base64, the files of a workspace and
-- their unified diffs, the results of locking, mounting and restoring a workspace, which processes
-- are alive, what a path is after its links, dollars, the backend, the sandbox and the frontend.
-- The tools of the harness (Agent, AwaitAgent) are an argument of the agent loop, and how an
-- agent's number is written is one of the subagents'. How a JSON value reads as a command is an
-- argument of `script_from_journal`.
--
-- Not modelled: the lifecycle notes of a cancellation, the bound of the broadcast channel, the payload of cost
-- reports, the servers' accept loops, certificates, the workspace snapshots and containers,
-- configuration, the frontends and clients, and the process and container glue of the sandboxes.
pub mod Prelude
pub mod Core
pub mod Proxy
pub mod Harness
pub mod Workspace
pub mod Frontend
