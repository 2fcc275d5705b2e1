-- ===== src/Lib.antt =====
-- The open recipes for agents: the parts of the TypeScript package that decide which tools an agent
-- may call, run its background children, tell the parent of their ends, keep their snapshots, find
-- tools that are not active, ask the user, and put a memory file into the system prompt.
--
-- A text is the list of its code units, and in Memory of its code points, a number is a natural
-- number, and an `undefined` or `null` is `none`. A thrown error is a value: a constructor with what the message
-- names, or `none` where a function throws one error only. The numbers of the source are far below
-- 2 ^ 53, where doubles are exact.
--
-- Parts, and the files of the repository that they model:
-- - Prelude, Json: shared notation, lists, texts and the values of JSON.parse.
-- - Agents: src/agents.ts, the contract of child runs; Agents/Tool is the `agent` tool over any
--   controller of that contract, a record of operations on a state, and Agents/Tool/Results the texts
--   and details of its results.
-- - Runs: src/run-controller.ts. Runs/Slots is the queue of acquireSlot and releaseSlot, Runs the
--   invocation executePrompt, Runs/Control the methods, Runs/Events the histories. An asynchronous
--   method is split at its awaits, and a history is any list of such parts: the engine runs one part
--   at a time, and what a part awaits, a session, a prompt or a disposal, is an argument of the part
--   that follows. Run objects are kept by position, as the closures of the source keep them by
--   reference. A promise that is awaited with `.catch(() => {})` has one way to go on. A run's
--   onUpdate, which the caller gives, returns or throws as a function of the summary.
-- - Completions: src/child-agent-completions.ts. The queue with the timers and microtasks that the
--   engine still has to run; Completions/Envelopes is the text of the notice, with Date.parse as a
--   parameter.
-- - ChildRuns: src/child-agent-store.ts. What is written of a snapshot and what is read back; the
--   directory's files are a function from ids to parsed values. Formatting and parsing of the JSON
--   text, and the order of concurrent writes, are not modelled, and neither is rehydrateChildRuns of
--   src/pi-extension.ts, which reads the snapshots and sets those that were running to interrupted.
-- - McpPolicy: src/mcp-policy.ts, and mcpSessionAllowsTool of src/mcp.ts. toLowerCase is a parameter.
-- - CliPolicy: src/mcp-cli-policy.ts. It asks McpPolicy whether a session lets a tool through;
--   CliPolicy/Listing has the policy of a session and the listings, CliPolicy the calls.
--   CliPolicy/Distance and CliPolicy/Closest are the suggestion for a misspelt name.
-- - Memory: src/memory.ts. The bytes of the file, how the system cuts the reads, the UTF-8 decoder
--   and dirname are parameters. The read loop has the limit and two rounds as fuel: each round that
--   goes on reads a byte or more of at most the limit and one, and the loop is shown to read all.
-- - ToolSearch: src/tool-search.ts. ToolSearch/Terms reads words and schemas. toLowerCase and
--   localeCompare are parameters; a schema is a tree.
-- - RecipeModel: src/recipe-model.ts. RecipeModel/Values and RecipeModel/Providers are the checks of
--   values and of provider sections, RecipeModel the two blocks, RecipeModel/Policy merging and what a
--   configuration does to models, requests and payloads. toUpperCase is a parameter. An object is the
--   list of its entries, and a parsed number keeps what the checks read of it.
-- - RecipeSession: src/recipe-session.ts, parsing and merging of an agent's session block;
--   RecipeSession/Values checks its values.
-- - RecipePackage: src/recipe-package.ts, what is read of a package.json that is parsed already.
--   RecipePackage/Selection has its types and the tool selections, RecipePackage/Shape the findings on
--   its shape.
-- - RecipeAgent: src/recipe-agent.ts. RecipeAgent reads the parsed YAML of each file, RecipeAgent/Mcp
--   its `mcp:` block, RecipeAgent/Resolution resolves the `from` chains, and RecipeAgent/Validation
--   are the findings of validateResolvedRecipeAgentSource. The recursions along a chain take the
--   bound on the stack less its length as fuel, which is the source's own test of its depth.
-- - ModelBinding: src/model-binding.ts, the references to models; the registry's lookup is a parameter.
--   RecipeAgent/Specs are the findings of src/recipe-agent.ts on them.
-- - McpContract: src/mcp-contract.ts, the quoting of the words of call examples. McpContract/Shell is a
--   reader of POSIX shell words, written from the standard and not from the source: it takes nothing of
--   the quoting, and has its own list of the characters that are to be quoted.
-- - Channels: src/channels/config.ts, the destination of a session. Channels/Refs is the store of
--   references of src/channels/refs.ts: JSON.stringify of a message's key is a parameter, and each call
--   takes the UUID it is given. Channels/Abstract is what the session has seen, without references.
-- - Interactions: src/interactions.ts. The channel and its result, Interactions/Requests the requests
--   and the normalisation of options and answers, Interactions/Walks the dialogs as functions of the
--   list of replies: the loop of the multiple choice goes on as long as there are replies.
--
-- Not modelled: the command line, the daemon, the MCP client, sessions and their extensions, the
-- tools of channels and the Slack package, the resolution of recipes and packages, the Rust checker and the
-- bindings. They are input and output, calls of the host's SDK, or other languages, but for the
-- matching of globs and the search of directories, which have logic of their own.
pub mod Agents
pub mod Channels
pub mod ChildRuns
pub mod CliPolicy
pub mod Completions
pub mod Interactions
pub mod Json
pub mod McpContract
pub mod McpPolicy
pub mod Memory
pub mod ModelBinding
pub mod Prelude
pub mod RecipeAgent
pub mod RecipeModel
pub mod RecipePackage
pub mod RecipeSession
pub mod Runs
pub mod ToolSearch
