-- ===== src/Lib.antt =====
-- magicEngine, a small web engine in Go, and what is proved of it.
--
-- The program has three packages and some examples. `http` is a server: NewHTTPServer makes one with a logger and a
-- recovery middleware and, if asked, a static file middleware; Use appends middleware, Bind sets a
-- route registry, and ServeHTTP runs the chain for each request and then lets the registry choose a
-- route, which has a chain of its own. `sse` has a server side that writes event frames and keeps
-- the connections, and a client that parses them. `tcp` has endpoints over connections, a client, a
-- server and a table of live endpoints.
--
-- Which file models what:
--   Common: lists, tests and byte strings. A Go string or byte slice is a list of byte values.
--   NetHttp, Paths: what the code uses of net/http, path, path/filepath and strings. The interface
--     http.ResponseWriter is the parameter NetWriter.
--   Http.Response (http/response_writer.go): responseWriter is the record ResponseWriter; Write and
--     WriteHeader are `write` and `write_header`. `run_reply` runs code that holds only the writer.
--   Http.Middleware (http/middleware_chains.go and the loops of http/context.go): a middleware is a
--     tree of its calls on RequestContext and the writer; `run` is the loop of Run with the nested
--     runs of Next and Run. Fuel: each round and each Next moves the index on, so that one more than
--     the length of the chain is enough for middlewares that do not call ctx.Run(); with that call
--     the loop may have no end (Http.Middleware.Fuel).
--   Http.Pattern (http/route.go, PatternFilter): the regular expression of a pattern as tokens, and
--     its leftmost-first match. Patterns with other operators of regexp are the parameter Regexp.
--   Http.Registry (http/route.go): routeRegistry, its map of slices as an association list; AddRoute,
--     RemoveRoute, ExistHandler and the choice in Handle are `add_route`, `remove_route`,
--     `exist_handler` and `select`. A panic is an outcome beside the registry that it leaves.
--   Http.Context (http/context.go and Handle of http/route.go): the runs of requestContext and
--     routeContext, `run_request` and `run_route`.
--   Http.Static (http/static.go), Http.Recovery (http/recovery.go, http/logger.go), Http.Server
--     (http/http_server.go): the built-in middlewares and the server. The file system and the values
--     in a context are parameters.
--   Http.Embed (http/embed_static.go): EmbedStatic with its cache; the embed.FS is the parameter
--     EmbedFs. Http.Embed.Shared: requests at the same time on its sync.Map, as a step relation whose
--     steps are the calls of Load, Store and the file system. Http.Env (http/env.go): what init reads from the environment.
--     Http.Errors (http/errors.go): the errors of the package.
--   Http.Pattern.Runs, Http.Pattern.Language: the texts that the tokens of a pattern describe, as a
--     relation.
--   Http.Url, Http.Redirect, Http.Proxy, Http.Upload (http/redirect.go, http/proxy.go, http/upload.go):
--     the routes that redirect, pass on and store. What net/url prints and parses, what
--     httputil.ReverseProxy does once its Director has changed the request, and the parsing and
--     storing of a form's file are parameters.
--   Http.Stack (http/recovery.go): the text of a stack over the frames of runtime.Caller.
--   Tcp.Endpoint (tcp/endpoint.go, endpointImpl): an endpoint over the parameter Conn, with the calls
--     that it made on its observer. SendData is `send_data`, fuel the number of bytes and one, since
--     a write without an error sends one byte at least; RecvData is `recv_data` over the results of
--     its reads.
--   Tcp.Manager (tcp/endpoint.go, SimpleEndpointManger): the table of endpoints, the calls that it
--     schedules, and OnNewConnect; Tcp.Manager.Buffer: the buffer that the scheduled calls share.
--     Tcp.Client (tcp/client.go): Connect, SendData and Close.
--   Tcp.Server (tcp/server.go): the accept loop and the connections that it accepts, as a step
--     relation: their rounds of RecvData, the writes of SendData, its tests of the observer after a
--     failure, and Close by the user or deferred, in any order. Tcp.Server.Table
--     has the bookkeeping, Tcp.Server.Live and Tcp.Server.Moves the steps.
--   Sse.Text: the trimming and the lines that the client uses, on ASCII. Sse.Server (sse/server.go):
--     Holder with the interface http.ResponseWriter as the parameter NetWriter; OnRecv, heartbeat and
--     EchoSSEID are `on_recv`, `heartbeat` and `echo_sse_id`, HolderRegistry an association list.
--   Sse.Run (sse/server.go, Holder.Run): any number of calls of Run on one holder, each with its task
--     and its heartbeat, as a step relation; a step is a part of the code under the lock, or one
--     write, which the code makes without the lock.
--   Sse.Client (sse/client.go): recvVal is `recv_val`, the loop of Get and Post `get_loop` over a list
--     of what its rounds meet. Sse.Client.Cancel: Close beside a call of Get
--     or Post, as a step relation. Sse.Lines and Sse.RoundTrip put the two sides together.
--
--   Http.Registry.Table: the registry as its users see it, one list of routes; Table.Refined relates
--     the two over any sequence of calls.
--   Example.Web (example/http): the server of the example, made of the models of package http.
--     Example.Echo (example/tcp): the observers of the echo server and its client, over package tcp.
--     A turn of the server is a read or the run of one scheduled call, as a whole, on the shared
--     buffer.
--     Example.Stream (example/sse): a client of server-sent events of its own; Connect is
--     `connect_stream` over a list of what its rounds meet, and the client keeps a trace of its acts.
--
-- Not modelled: logging, the closing of files, the listening sockets, and the flags and signals of
-- the programs in example/. Requests that run at the same time are interleaved on the cache of
-- EmbedStatic only: the registry is under its lock, and the rest of a request is its own. Code of the
-- program's users is given by the calls that it makes and ends. The status code is a natural number,
-- and net/http's refusal of codes outside 100..999 is left out. A text is compared as bytes; ToUpper
-- and TrimSpace are those of ASCII.
pub mod Common
pub mod NetHttp
pub mod Paths
pub mod Http
pub mod Tcp
pub mod Sse
pub mod Example
