-- ===== src/Lib.antt =====
-- Verification of AIFStudio, a web service that writes, compiles and plays interactive fiction
-- (module service/ of the repository, in Go). A browser starts a run of a game (service/internal/
-- server); the runner resolves the story file, extracts archives, spawns an interpreter and keeps a
-- session with save files in the store (service/internal/runner); projects are compiled by a build
-- manager (service/internal/build) and written with the help of a language model
-- (service/internal/openai); games are looked up through a proxy of the IFDB catalogue
-- (service/internal/ifdb). Users have accounts and sessions (service/internal/auth).
--
-- Which file models what, by the paths from the root of the repository:
--   Prelude, Dict: shared names, Boolean tests, lists, maps with string keys; no file.
--   Text, FilePath: Go's strings and path/filepath, as far as the code calls them; no file.
--   Runner/SaveLock: saveLock.triggerAsync of service/internal/runner/save.go.
--   Runner/Archive: service/internal/runner/extract.go.
--   Runner/Download: service/internal/runner/download.go, and the loop over the candidates in resolve
--     of service/internal/runner/session.go.
--   Runner/Manager: the session map and the sweeps of service/internal/runner/manager.go.
--   Runner/Interpreter: service/internal/runner/interpreter.go, and finalizeArtifact of
--     service/internal/runner/session.go.
--   Runner/Session: saving, suspending, killing and the exit of the interpreter, of
--     service/internal/runner/save.go and service/internal/runner/session.go.
--   Build/Slots: StartBuild, ActiveBuildID and clearActive of service/internal/build/manager.go.
--   Build/Job: runBuild and failBuild of the same file with service/internal/build/artifacts.go.
--   Store/Table, Store/Rows: statements on a table, and the rows and schema of
--     service/internal/store/store.go and service/internal/store/sqlite.go.
--   Store/Runs, Store/Projects, Store/Records: the methods of SQLiteStore on runs, on projects with
--     their sources, and on turns, builds and cached games, of service/internal/store/sqlite.go.
--   Store/Blobs: service/internal/store/local_blob.go.
--   Store/Maps: projects and sources as two maps, the specification of Store/Refines.
--   Store/Integrity, Store/Refines, Store/RoundTrip, Store/Listings: theorems on the store.
--   Server/Http: replies, ids and the checks that handlers share, of service/internal/server.
--   Server/Projects, Server/Cascade, Server/Builds: service/internal/server/handlers_projects.go, where
--     Cascade is the deletion of a project and Builds also has the downloads of
--     service/internal/server/handlers_builds.go; Server/Builds/Test is handleBuildTest of that file.
--   Server/Runs: service/internal/server/handlers_runs.go, with its creation in Server/Runs/Create and
--     start, command and suspending in Server/Runs/Live.
--   Server/Community, Server/History: service/internal/server/handlers_community.go and
--     service/internal/server/handlers_history.go.
--   Server/Assistant: service/internal/server/handlers_ai.go with the parts of
--     service/internal/server/ai_prompts.go that compute; handleAIChat is in Server/Assistant/Chat.
--   Server/Owner: theorems on requests by others than the owner.
--   Server/Transcript: compressTranscript of service/internal/server/transcript.go; Server/Transcript/
--     Chosen says its rules without the variables of the loop.
--   Openai/Fence: ExtractFencedInform7 of service/internal/openai/extract.go.
--   Openai/Stream: StreamChat of service/internal/openai/stream.go, for any JSON decoder.
--   Auth/Tables: the tables of users and sessions of service/internal/store/sqlite.go.
--   Auth/Sessions: SessionAuth of service/internal/auth/auth.go over those tables, for any bcrypt.
--   Auth/Handlers: service/internal/server/handlers_auth.go, and isAllowlisted and
--     sessionAuthRequired of service/internal/server/middleware.go.
--   Ifdb/Cache: memCache of service/internal/ifdb/cache.go.
--   Ifdb/Retry: doWithRetry of service/internal/ifdb/client.go, for any parser and any answers.
--   Ifdb/Format: the links of viewgameToGame, detectFormat, PreferredFormat and splitAuthors of
--     service/internal/ifdb/client.go, for any url.Parse.
--
-- Conventions. A method that mutates its receiver gives the new record. A call of the file system, a
-- process, the clock or the store is an answer in a record of the call's world, and every answer is
-- allowed. Texts that the code walks are lists of code points (Text); identifiers, statuses and blob
-- paths that it only compares and joins are native strings. Mutexes show as the atomic steps of a
-- relation where interleavings matter. The store is present, as service/main.go wires it. A wait that
-- polls takes fuel, and one round for each 20 ms of its timeout and two more are enough.
--
-- A handler gives its new state and a reply: the status with the code of writeError, whose message is
-- left out, or the status with the record that it writes as JSON. The body of a request is what the
-- decoder gives. The new id, the time and what each call of the store answers (Answers) are arguments.
-- Statements of the database are functions on lists of rows, newest first; they keep the primary and
-- foreign keys of the schema. Lists that the code cuts keep the code's bounds.
--
-- Not modelled: HTTP and template glue, the routes, the IFDB handlers, the compiler's command line and
-- summaries, the configuration, starting processes, logging, and the parts that the modules above do
-- not name. The rest of the IFDB client stands on net/http and encoding/json.
pub mod Prelude
pub mod Text
pub mod FilePath
pub mod Dict
pub mod Runner
pub mod Build
pub mod Server
pub mod Ifdb
pub mod Auth
pub mod Openai
pub mod Store
