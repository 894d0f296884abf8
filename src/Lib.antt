-- ===== src/Lib.antt =====
-- Verification library of the service backend (Go): who may do what, the browser sessions, the debug
-- bridge with its connections, and the moving and deleting of documents.
--
-- A request enters through the HTTP middleware. A caller is a person with a session or the holder of
-- a personal access token; the middleware puts the actor, the workspace access and the token into the
-- request's context, and the use cases ask that context. This library models the use cases that
-- decide about access, the sessions behind the session cookie, the bridge that connects running
-- applications with the configurator, and the part of the documents' use case that moves, deletes and
-- restores documents.
--
--   Errors       internal/domain/errors/app_error.go: errors and results as values. An error is its
--                code and its HTTP status; messages and details are left out.
--   Entities     internal/domain/entities: the records that the parts share, the status of a token
--                and the cap that a token puts on a role.
--   Exec         code that runs over a store behind a port and may fail; a transaction rolls back.
--   Access       Context is internal/usecase/shared/context.go (Actor, Access, WriteContext,
--                AdminContext, CommitContext), Authorize is internal/usecase/workspaces/queries.go,
--                Memberships is internal/usecase/workspaces/memberships.go,
--                Routes is the route policy in internal/api/http/middleware/access_token.go.
--   AccessTokens internal/usecase/access_tokens: Create, List, Revoke and Authenticate, and the format
--                of a secret.
--   Policy       internal/domain/access/policy.go: external access, from claims to grants. JSON
--                values are a data type; Pointer is pointerValue, Path is ParsePointer.
--   AccessControl internal/usecase/access_control: Operations is Put, Delete and Bulk; Queries is
--                SearchUsers, List and Management; Snapshot and Identity are the resolution of the
--                current actor with local and with external management.
--   Auth         internal/auth: the session manager (session_manager.go) and MapExternalAccess
--                (external_access.go). Login is Begin and Complete, Sessions is Resolve,
--                ResolveAfterStale, Revoke and Cleanup, Renewal is refresh, ReturnUrl is safeReturnURL,
--                Access is withExternalAccess and tokenExpiry.
--   Bridge       internal/usecase/bridge/usecase.go: Members is Join, Check and Leave, Directory is
--                authorize, Handle is Handle and Sweep, Sessions is requestSession, acceptSession, end
--                and expire, Exchange is requestCommand and forwardClientEvent, Delivery is what is
--                sent; Steps is the transition system of the locked sections of concurrent calls.
--   Connections  internal/platform/bridge/connections.go, below the debug bridge: one connection with
--                its queue, Steps is its writer and its reader, Registry is Serve, Send, Close and
--                Shutdown.
--   Documents    internal/usecase/documents: Check and Move are move.go (MoveDocuments), Lifecycle
--                is Delete and Restore of commands.go, and the parent file is the resolution of a
--                document's folders in folders.go.
--   Prelude      Boolean tests, lists, Go maps and texts.
--
-- How the code is represented. A method that reads is a function into Result; a method that writes
-- through a port is a function of a store S into a result and a store; the bridge's own state is the
-- record Bridge.State. A time is a number of nanoseconds, and each clock reading is an argument. A Go
-- map is an association list; its order of iteration is the list's. A Go string is a native text,
-- measured in bytes or in characters as the source does; a JSON pointer and the payload of a
-- connection are lists of bytes. The ids that the code draws are arguments.
--
-- Parameters, since they are no code of this repository or reach outside of it: the database behind
-- the repositories' ports, which SQL statements of the session manager fail, SHA-256, base64,
-- encryption, uuid.Parse, JSON and its digests, the comparison of JSON numbers, the parsing of URLs,
-- the token resolver and the identity provider's adapter, and whether the bridge's delivery port
-- accepts a message. Where a theorem relies on the database, the reliance is a record of named laws
-- (CountsAdmins, StoresStates).
--
-- The functions for whole calls (check, handle, join) run without interruption. Where the source lets
-- go of its lock in between, Bridge.Steps has the locked sections as steps of their own, so that the
-- calls of several connections may interleave. Connections.Steps and Connections.Registry do the same
-- for the goroutines of the connections: Send has two steps, since a connection may be closed between
-- its test and its send on the channel, and what the socket answers is any choice of the step.
--
-- No function runs on fuel: every loop of the modelled code is over a list, a map or a text, and is
-- structural recursion here, but for the two loops of Serve, which are step relations. The numeric
-- bounds are the source's own constants.
--
-- Not modelled: AccessTokenAllowsRoute with its normalization of the path, the reading of the policy file, the HTTP handlers and the fiber plumbing, PostgreSQL,
-- the OIDC adapter and the JWT resolver, the sockets themselves, the other operations on documents and
-- workspaces, and the release, commit, revision, integration and AI use cases.
-- Some error outcomes are narrowed: Bulk also returns the counts so far, which are left out, an error
-- of ResolveCurrentActor comes without the user, and one of Delete and Restore without the document;
-- the four failures of Cleanup share a text.
pub mod Access
pub mod AccessControl
pub mod AccessTokens
pub mod Auth
pub mod Bridge
pub mod Connections
pub mod Documents
pub mod Entities
pub mod Errors
pub mod Exec
pub mod Policy
pub mod Prelude
