-- ===== src/Lib.antt =====
-- Shirita is a chat front end for language models. This library models the parts of its core that
-- decide what a model is asked and what becomes of its reply: the assembly of prompts, the variables of a
-- session, the agent loop with its tools and the servers of tools, the protocols in which a model asks for
-- tools and for edits, and the pure helpers on settings, histories and message trees.
--
-- The parts, and the files that model them (paths from the root of the repository):
--   shirita-core/src/agent_loop.rs        AgentLoop: events, environment; AgentLoop/Context: the request
--     (`selected_specs`, `inject_workspace_snapshot`, `append_round`); AgentLoop/Calls: one call and the
--     loop over the calls of a round; AgentLoop/Rounds: the stream, the checks of a round, the commit and
--     `run` as `run_harness`; Workspace: `apply_replace`, `apply_patch`, `commit_finish`
--   shirita-core/src/tools.rs             Tools: records, `ToolRegistry` with `register`, `execute`,
--     `specs`; Tools/Builtin, Tools/Random, Tools/Math: the handlers; Tools/Registry:
--     `builtin_tool_registry`; Tools/Registered: a chain of registrations
--   shirita-core/src/agent.rs             Agent: `AgentSettings::sanitized`, `validate`, `GenerationRun`
--   shirita-core/src/xml_tools.rs         XmlTools: `parse_xml_tool_round` and the printers
--   shirita-core/src/model/mod.rs, models/message.rs   Model: messages, requests, events
--   shirita-core/src/html_patch.rs        HtmlPatch: `parse_patches`, `apply_patches`, `reconstruct`
--   shirita-core/src/mcp/authorization.rs Authorization: the steps of the broker, `redact`
--   shirita-core/src/mcp/mod.rs           Mcp: configurations, `redacted`, `merge_secrets`, `validate`;
--     Mcp/Policy: policies and names; Mcp/Session: `list_tools`, `call_tool`; Mcp/Handler: the handler
--   shirita-core/src/mcp/http.rs          Mcp/Http: `validate_url`, `validate_header_name`, `parse_sse`
--   shirita-core/src/mcp/registry.rs      Mcp/Registry: `build_effective_tool_registry`
--   shirita-web/src/generations.rs        Generations: the registry of generations in flight
--   shirita-core/src/tree.rs              Tree: `active_path`, `deepest_leaf`; Tree/Newest: the newest
--     child, described without the code's comparison
--   shirita-core/src/budget.rs            Budget: `trim_history`
--   shirita-core/src/models/definition.rs, models/prompt_node.rs   Nodes: definitions and nodes of trees
--   shirita-core/src/keyword.rs           Keyword: `KeywordIndex` with `build` and `scan`; Keyword/Laws:
--     what is relied on of the automaton
--   shirita-core/src/assembly.rs          Assembly: plans; Assembly/Activation: `activate`;
--     Assembly/Content: `strip_comments`, `sanitize_tag`, `maybe_wrap`; Assembly/Plan:
--     `assemble_from_nodes_with_packs`; Assembly/Messages: `build_chat_messages`; Assembly/Rules: the rules
--     of regular expressions
--   shirita-core/src/state.rs             Variables: `effective_state`, `parse_state_updates`;
--     Variables/Schema: `resolve_schema_from_bricks`; Variables/Updates: `apply_updates`
--   shirita-core/src/identity.rs          Identity: `resolve_identity_with_packs`
--   shirita-core/src/panels.rs            Panels: `collect_panels`
--   shirita-core/src/portable.rs          Portable: `export_pack`, `export_template`, `parse_portable`
-- Prelude, Text, Json and Assoc hold what all of them share: native numbers with Boolean tests, strings
-- as lists of Unicode scalar values (`byte_len` counts their UTF-8 bytes), JSON values, and hash maps as
-- association lists.
--
-- How they interact. `run_harness` is a function from the harness (environment, serde, registry,
-- settings), the request and the run's record to the list of events that the stream yields. A round asks
-- the environment for the provider's reply, reads text and calls from it (natively, or by XmlTools), and
-- runs the calls through `execute` of Tools; a handler answers with a result and a control, and the loop
-- alone carries a control out, on the run's Workspace. Handlers are functions of the moment of the call,
-- so that what they take from outside, as a random draw, may differ from call to call. The registry of a
-- run is the built-in one with the tools of servers registered on top; their handlers ask the broker of
-- Authorization first, where the policy says so. A plan of Assembly is built from the nodes of a template
-- and of its packs; `build_chat_messages` makes of it and the history the messages that trim_history cuts
-- and that a run starts from; the updates that a reply asks for are applied to the state of Variables.
--
-- Taken from outside as parameters: the provider, the stop token and the clock (`Env`; the provider
-- always answers, and its stream is a finite list of items, one of which may be the cancellation by
-- the stop token: a request that never gets an answer and a stream that never ends are outside the
-- model); printing and reading of JSON (`Serde`); the arithmetic of f64 (`Floats`); random draws, with
-- the range of an index as a law (`Dice`); the token counter (`Counter`); the connection to a server
-- of tools and its replies (`Servers`, the `transport` of a session); the reading of a stored policy
-- (`ReadPolicy`) and of a declaration (`ReadDecl`); the automaton of keywords, with the order in which
-- a set of ids is gone through (`Automaton`, and as laws that a match is one of a pattern and that a
-- set yields its own ids only); what regular expressions find (`Rendering`, `TagPatterns`, `Engine`);
-- the identity of a pack as serde writes and reads it (`IdentityFormat`); the f64 of variables
-- (`Arithmetic`), with the law that JSON has a number for each finite value. No error message is
-- modelled as text: a failure is a constructor named after its message.
--
-- A call of the registry of generations is one step. In the source the number of a generation is drawn
-- before the lock is taken, so that two calls of `replace` may cross; that is outside the model.
--
-- Numbers are natural numbers; where the source saturates or stays within a machine width that is
-- written out (`next_revision`, `usize_add`, the counters of a run). The sums of token counts are taken
-- without a bound. An event `panicked` stands for the `unreachable!` of the loop over the calls.
--
-- Fuel. The XML parser runs on one more step than the text has characters, since each step takes a
-- closing tag off the text. The expression parser has eight steps for each character and eight more,
-- since it takes at most five before it takes a character. `active_path` and `deepest_leaf` take their
-- fuel as an argument, because the loops of the source end only where parents form no cycle. A printed
-- number has 20 digits at most, as a u64 has. The pages of `list_pages` are the limit of the source, with
-- its error when they are used up. `strip_loop` runs on as many steps as the text has characters, since each
-- leaves fewer of them to read. `all_enabled` has one step more than the tree has nodes, since each step
-- sees a node for the first time. Everything else is structural recursion.
--
-- Not modelled: storage, network transports, the web server, providers, third-party tokenizers and
-- hashing, which are input and output; and, so far, summaries, the parts of the conversation that are not
-- storage, and the paths of assets in a pack.
pub mod Prelude
pub mod Text
pub mod Json
pub mod Assoc
pub mod Tools
pub mod Workspace
pub mod XmlTools
pub mod Model
pub mod HtmlPatch
pub mod Tree
pub mod Budget
pub mod Authorization
pub mod Agent
pub mod AgentLoop
pub mod Generations
pub mod Mcp
pub mod Nodes
pub mod Variables
pub mod Keyword
pub mod Assembly
pub mod Identity
pub mod Panels
pub mod Portable
mod Examples
