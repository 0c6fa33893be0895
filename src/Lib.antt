-- ===== src/Lib.antt =====
-- Verification library of netx, a Go package of building blocks for network and HTTP
-- applications. It models the code in antt, a function for each function of the source, and
-- proves what makes it correct.
--
-- Conventions. A Go string or byte slice is the list of its bytes. `for i, c := range s` goes
-- over the runes that Go decodes, which Utf8 models, invalid bytes included. A function that
-- returns a value and an error returns a Result, or a pair where the source returns a value
-- beside the error. A loop whose text gets shorter takes the length of the text as fuel.
--
-- Which file models what:
-- - Base and below: Boolean tests, lists, and what the code uses of the package strings.
-- - Utf8: decoding and encoding of runes, as the language does it.
-- - Httpx.Lex: httpx/httplex.go (isToken is `is_token`, trimOWS is `trim_ows`, tokenEqual is
--   `token_equal`).
-- - Httpx.Quote: httpx/quote.go (parseQuoted, writeQuoted, split). Httpx.Media: httpx/media.go.
-- - Httpx.Accept and Httpx.AcceptEncoding: httpx/accept.go. They use Media, Quote and Lex as the
--   source does.
-- - Httpx.Header and Httpx.Proto: the header maps of net/http as the code uses them, and
--   httpx/proto.go (deleteHopFields, headerValuesRemoveTokens, addHeaderValue); Proto.Hop,
--   Proto.Values and Proto.Tokens are about the hop-by-hop fields, the values of a field and the
--   tokens that are taken out. The callback of forEachHeaderValues gets and returns the state
--   that it changes.
-- - Strconv, Net.Stream and Net.Ip: decimal numbers, a connection as the segments that arrive on
--   it, IP addresses. Net.ProxyProto and below: proxy.go. The two functions that append a header
--   are in Encode, parseProxyProto is in Parse, ServeConn and proxyProtoConn are in Serve.
--   Reading a line is a recursion on the segments: a read that takes a part of a segment fills
--   the 107 bytes, and the round after it is the last.
-- - Httpx.Upgrade: httpx/upgrade.go. A handler is a value of any type, nil and a missing name are
--   `none`, and a panic of UpgradeMux.Handle is `none` too.
-- - Httpx.Float and Httpx.Sort: parameters that stand for float32 with strconv.ParseFloat, and
--   for sort.Sort, with their documented laws. Tests instantiates both.
-- - Httpx.Server.Writer and Httpx.Server.Chunk: chunkWriter of httpx/server.go over a parameter
--   for io.Writer. Chunk.Wire says what the chunks on a connection are; Write and its loop are
--   `write`, `write_loop` and `fill`, where two rounds are enough fuel, since the second starts
--   with an empty buffer and is the last.
-- - Httpx.Server.Response and below: responseWriter of the same file, over the same writer. Head
--   is what WriteHeader sends, Run a whole response in chunks, Round and Length a response of a
--   declared length. The texts of a header and of a status and the date are the parameter
--   `Texts`; a header is taken as one write. The panic on an empty list of lengths is the error
--   `crashed`.
-- - Httpx.Server.Serve: serveHTTP and the loop of ServeConn, over the list of the requests that
--   are read and handlers that are any functions on the response writer. Waiting for a request
--   and reading one are net/http and time.
-- - Httpx.Conn: connReader of httpx/conn.go over a parameter for the connection. A negative limit
--   is none; the panic of a nil cancel function is `crashed`.
-- - Httpx.Retry and below: httpx/retry.go. RetryHandler calls its sub-handler, any `Program`,
--   over any `Responder`; Retry.Transport is RetryTransport over a sub-transport given by its
--   replies. The loops are `attempts` and `trips`, whose fuel is the number of attempts that may
--   be made; the theorems on them are for exactly this fuel. A negative MaxAttempts is left out.
-- - Httpx.Forwarded: the Forwarded and Max-Forwards fields of httpx/proto.go, over net.ParseIP
--   and net.JoinHostPort. Httpx.Proxy: the part of ReverseProxy.ServeHTTP in httpx/proxy.go that
--   rewrites a request and chooses how it is served, its `plan`; Proxy.Serve is what the client
--   then gets, by what the transports, a dial and the connection of the client do. A copy of a
--   body is taken as whole. Proxy.Passes is about the fields of requests, Proxy.Choice about the
--   plan, Proxy.Switch about which requests may open a tunnel and which are forwarded,
--   Proxy.Replies about the response.
-- - Httpx.Encoding: httpx/encoding.go on whole bodies: the transport, the handler, and the three
--   encodings over parameters for the packages below compress, which read back what they write.
--   Encoding.Compose puts a client and a handler together, over a parameter `Carrier` (in
--   Encoding.Carried) for what net/http does between them: it delivers a response whose status
--   allows a body and that declares no length, to a request other than HEAD, which leaves out the
--   bodies that HTTP does not send and those of a wrong length.
-- - Addr: addr.go and ip.go. Listen: Listen, ListenPacket and resolveListen of listen.go, over
--   parameters for what package net splits, resolves and opens; a descriptor is taken to be that
--   of a Unix socket, since the type assertions on it panic for any other. Listen.Multi and
--   below: the compound listener of the same file. Its state is where each goroutine is, whether
--   Close was called, and which connections were given, returned and closed; a `Step` is what one
--   goroutine, a call of Accept or Close does, with the two ends of a channel in one step. Close
--   closes the listeners in one step, and what Accept returns when Close has ended is left out,
--   since it changes nothing. The theorems are in Closing and Ending.
-- - Server and below: Serve and accept of server.go in the same manner. `Own` is what the code
--   does, `Outside` what the listener, the handlers and the context do: a listener that is closed
--   gives errors only, none of them temporary, and a connection is closed in the step in which
--   its handler returns. Start, Shutdown and Quiet have the theorems. There is no fuel: the
--   theorems are on runs of any length.
-- - Handler: readLine and EchoLine of handler.go, over the buffer of a bufio.Reader as its
--   documentation has it: the bytes before, in and behind what is buffered, since the code
--   reaches behind the line that it is given. What happens on a connection is a list of segments,
--   pauses of a second, and the end of the context. A line takes one round of the loop, and the
--   number of rounds is the fuel. Tunnel: TunnelLine of tunnel.go, on the same reads.
-- - Unix: unix.go, as the descriptors of connections that a process has open and those that it
--   sent; what the system calls give are parameters.
-- - Tests: runs on concrete inputs and an instance of each theorem.
--
-- Not modelled: system calls, TLS, time and the text of error messages; the transport of
-- httpx/conn.go, which is a sequence of calls of net/http and bufio; copying of bytes between
-- connections (copy.go, Echo and TunnelRaw); duplicates and base connections (conn.go); error.go,
-- which calls methods of an error. Which of several goroutines goes on is not fixed: a theorem on
-- steps holds for any order of them.
pub mod Base
pub mod Utf8
pub mod Strconv
pub mod Net
pub mod Addr
pub mod Listen
pub mod Server
pub mod Httpx
pub mod Tests
pub mod Handler
pub mod Tunnel
pub mod Unix
