-- ===== src/Lib.antt =====
-- A verification library of the Go program oryxos-go, an agent runtime: profiles select a model and
-- tools, an invocation runs a ReAct loop over a session, and each model call and each tool call leaves
-- one audit row.
--
-- How the parts interact. The agent service (internal/runtime/agent_service.go) looks up a profile,
-- resolves a session, runs the loop and saves the session. The loop (internal/runtime/react_loop.go)
-- asks the prompt builder (internal/runtime/prompt_builder.go) for messages, the provider service
-- (internal/provider/service.go) for a response, and the tool executor (internal/tool/executor.go) for
-- the result of each tool call, and appends them to the session (internal/session/session.go). The
-- executor checks arguments against a schema (internal/tool/schema.go). Both write rows through the
-- repositories (internal/store).
--
-- Around them, the command reads the server configuration (internal/config/load.go) and the directory
-- of profiles (internal/profile/loader.go), and the application (internal/app/application.go) starts
-- its components, one of which is the HTTP server (internal/web/component.go), and closes them. The
-- command also makes the directories and files of a workspace (cmd/oryxos/workspace.go).
--
-- The files. Each module stands for the source file that its first lines name, its record types are the
-- structs, and a function has the name of the Go function in snake case; a function whose name is not
-- in the source is the part of a Go function that its comment names.
--   Session, Session/Turns           internal/session/session.go: New, Append, Messages, RecentTurns
--   Llm                              internal/llm/model.go: the values that the parts exchange
--   Profile                          internal/profile/profile.go: the profile types
--   Profile/Validate, Clone          internal/profile/loader.go and registry.go: validateProfile and the
--                                    copies
--   Profile/Loader, Registry         internal/profile/loader.go and registry.go: LoadDirectory, Get, Len,
--                                    List
--   Config, Config/Load              internal/config/load.go: configError, the YAML nodes, LoadServerYAML
--   Config/Keys, Shape, Fields       internal/config/load.go: rejectDuplicateKeys, validateYAMLShape, the
--                                    fields that an error of the decoder names
--   Config/Expand                    internal/config/expand.go: expandScalars, expandString
--   Config/Server                    internal/config/config.go and load.go: validateServerConfig
--   App, App/Protocol, App/Ends      internal/app/application.go: NewApplication, Run, shutdown
--   Workspace and below              cmd/oryxos/workspace.go: InitializeWorkspace, WorkspaceStatus
--   Runtime/Prompt and below         internal/runtime/prompt_builder.go: Build, splitCurrentTurn,
--                                    limitCompleteTurns, dropOldestCompleteTurn, messagesRuneCount
--   Runtime/React and below          internal/runtime/react_loop.go: Run
--   Runtime/Agent, Agent/Saves       internal/runtime/agent_service.go: Invoke
--   Tool/Executor and below          internal/tool/executor.go and types.go: Execute
--   Tool/Schema and below            internal/tool/schema.go: validateArguments
--   Provider/Service and below       internal/provider/service.go and tool_schema_resolver.go: Chat
--   Provider/Stream and below        internal/provider/stream.go: ChatStream, Recv, Close
--   Provider/Registry and below      internal/provider/registry.go: RegisterFactory, BindProfile,
--                                    BindProfiles, Model
--   Provider/Eino, Eino/RoundTrip    internal/provider/eino_adapter.go: the conversion of messages
--   Web/Pagination, Web/RequestId    internal/web/api/pagination.go, internal/web/middleware/request_id.go
--   Web/Component and below          internal/web/component.go: Start, Close and the serving goroutine
--   Store                            internal/store: the rows and the two Create methods
--   Go/Text, Error, Json, Effect     what the code uses of Go: texts and quoting, error chains with
--                                    errors.Is and errors.As, values of `any` that come from JSON,
--                                    calls that change the world
--   Go/Scan, Go/Parse                searches in texts, sort.Strings, strings.Cut, strconv.Atoi,
--                                    net.SplitHostPort
--   Common, Tests                    shared helpers; witnesses and tests
--
-- Code outside the repository, and the parts behind a Go interface, are fields of a record over an
-- unknown type of worlds `W`; a call takes the world and gives it back. A theorem that counts rows,
-- saves or closes takes a view of the world, with the hypotheses that say which call changes it.
--
-- Fuel. The fit of a prompt into its budget drops one turn a round and has one round more than there are
-- messages; the retry loop has max_tool_retries + 1 attempts; the two checks of schema.go have fuel
-- above the size of the schema. The expansion of a text and the write of a file have one round more than
-- there are characters or bytes, and each round takes one at least. The wait of an application takes
-- the number of its selections and `ensureWorkspaceDirectory` that of its calls: both depend on what
-- others do, and the answer is none where the number is too small.
--
-- Not modelled. config.SanitizeErrorString is the interface Redaction: a text passes unchanged or is
-- replaced whole. The decoding of JSON and YAML, the database, the log handlers and the file system are
-- parameters or absent, and so is time.ParseDuration, which computes with floats. Of a YAML node the
-- model keeps what the program reads. Texts are valid UTF-8 sequences of code points, and for %q a code point from
-- U+0080 on counts as printable. A mutex makes a method one step. Copies are values, so the aliasing
-- of a copy is not seen. Times are nanoseconds from zero on, and a duration is cut at zero. A Go map
-- is visited in the order of its list.
pub mod Common
pub mod Go
pub mod Llm
pub mod Profile
pub mod Session
pub mod Store
pub mod Tool
pub mod Provider
pub mod Runtime
pub mod Web
pub mod App
pub mod Config
pub mod Workspace
mod Tests
