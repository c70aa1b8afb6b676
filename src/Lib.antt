-- ===== src/Lib.antt =====
-- The relay's own logic: the proxy handler with its middleware, access control and rate limits, users
-- and keys, memory extraction, archive delivery, health monitoring, skill checks, device authorization
-- and the OAuth provider.
--
-- Parts and files. Every source path below is under internal/.
--   Extraction: turning the transcript of a session into memories. A session is admitted by a gate
--     (Extraction/Gate, store/memory_sessions_extract.go: the WHERE clause, BeginExtractAttempt,
--     CompleteExtractPass, FailExtractPass, PoisonExtractRange), waits in a bounded queue with workers
--     (Extraction/Queue, memory/extractor/queue.go: Enqueue, admissible, run), and is worked on by a
--     pass (Extraction/Pass, memory/extractor/extractor.go: Extract, truncateOversized) that filters
--     (Extraction/Filter, memory/extractor/filter.go) and chunks (Extraction/Chunk,
--     memory/extractor/chunk.go) the messages above the watermark.
--   Archive: delivery of payloads to an endpoint. Archive/Queue is the table of store/archive_queue.go,
--     Archive/Crypto the encryption of its credentials (store/crypto.go), Archive/Breaker the circuit
--     breaker and the schedule, and Archive/Dispatcher the delivery loop of
--     middleware/archive_dispatcher.go, which joins the three.
--   Access: Access/Classify is mcp/classify.go; Access/Tiers the tiers of store/access.go, the
--     permissions of store/profiles.go, and checkEndpointAccess of server/http.go over both.
--   Relay: handleMCPProxy of server/http.go, one message from the request to the answer: a notification
--     goes to the backend, a request through the access check (Access/Tiers), the pipeline of the server
--     (Middleware), the backend, the pipeline in reverse, the optimizer and filterListResponse.
--   Middleware: the pipeline and the registry of middleware/middleware.go (Middleware, Middleware/Build),
--     the table of configurations of store/middleware.go (Middleware/Configs), the sizer of
--     middleware/sizer.go, and the optimizer of middleware/optimizer.go with HashTools of
--     mcp/optimize.go.
--   Accounts: users, API keys and sessions of store/users.go and store/sessions.go, capabilities
--     (Accounts/Capabilities) with hasCapability of web/auth_capabilities.go, and the password handlers
--     of web/handlers.go. Accounts/Run is any sequence of these calls.
--   Limits: ipRateLimiter with handleLogin of web/handlers.go, the limiter of server/ratelimit.go and the
--     bucket over paid calls of memory/extractor/ratelimit.go.
--   Skills: the comparison of a skill with its upstream (Skills/Detect, skills/checker/detect.go), the
--     check of skills/checker/cron.go over the rows of store/skills.go (Skills), the URLs that
--     ValidateGitURL lets through (Skills/Url), versions (Skills/Versions), grants and what a user may
--     read of web/skills_handlers.go (Skills/Assigned), and the uploads of skills/service.go with the
--     files on disk (Skills/Uploads).
--   Invites: the one-time invites of store/invites.go.
--   DeviceAuth: the store of pending device authorizations, the poll and the check before a decision
--     of web/device_auth.go, with the requests on a heap that the store and a handler share.
--   Health: the monitor of proxy/health.go over the rows of store/servers.go.
--   Oauth: Oauth/Store is the code store of web/oauth_provider.go with the tables of
--     store/oauth_clients.go and store/oauth_tokens.go; Oauth/Handlers the consent form, the code
--     exchange and the refresh of web/oauth_provider.go over them.
--   Prelude: Boolean tests, lists, maps and texts that the parts share. In each part the module named
--     Tests runs the definitions on concrete inputs.
--
-- How the code is modelled. A table is a list of rows, a Go map a function from its keys to an
-- optional value, and a statement or a section under a mutex one function on the state. Times are
-- natural numbers of seconds. A text that is taken apart is a list of code points whose size in bytes
-- is that of UTF-8; other texts are strings. What comes from outside is an argument: the clock, random
-- values, the answers of endpoints and backends, the verdict of a JSON parser, ciphers and hashes.
-- Concurrency is a step relation (the queue's workers), a list of events in any order (the monitor,
-- the breaker), or what others do between two steps (the delivery loop).
--
-- Bounds and fuel. Loops recurse on the list they walk. The one function on fuel prints a decimal
-- number and is given one more than the number, which has at most that many digits. Machine
-- integers count rows, bytes and seconds and stay far below 2 ^ 63, so they are natural numbers;
-- where the code subtracts, the difference is compared with a positive bound, so that stopping at 0
-- decides as a negative difference does. A bucket counts tokens in parts of which `whole` make one, so
-- that a rate per tick is a whole number. Waiting for a token recurses on the list of its rounds.
--
-- Not modelled: errors of the database except duplicate keys, the foreign key of a skill and the
-- failed insert of a provenance row; errors of the file system; the request log and the table of
-- events; the transport to backends, containers and endpoints; the encoding of JSON; the web pages;
-- the sanitizer and the alerter; the cache of clones, the content of archives, recipes and the command
-- line client.
mod Prelude
pub mod Access
pub mod Accounts
pub mod Archive
pub mod DeviceAuth
pub mod Extraction
pub mod Health
pub mod Invites
pub mod Limits
pub mod Middleware
pub mod Oauth
pub mod Relay
pub mod Skills
