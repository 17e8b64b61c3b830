-- ===== src/Lib.antt =====
-- ModServer: a server that hands its TCP connections to plugins, with an HTTP plugin.
--
-- The parts, and how they work together. `Server::Run` (server_core/server.cpp) asks `select` which of
-- its sessions may be read or written, and calls them; an `AcceptorSession` accepts a connection and
-- registers a `ConnectionSession` for it, which moves bytes between its socket (socket/) and the
-- protocol handler that a plugin gave it (plugin_api/protocol_handler.h). The HTTP plugin's handler
-- (server_plugin/http) collects a request, parses it and fills a response, which the session sends.
--
--   Prelude               shared types and lemmas; Prelude/Fault: what C++ leaves undefined, a failed
--                         assertion and an exception are faults, so a theorem that code returns `ok`
--                         says that none of them happens; Prelude/Memory: reading and writing bytes
--   Base/CommandLine      base/command_line.cpp
--   Base/Logger           base/logger.cpp: `log` is Log; Logger/Start: InitLog and what it writes
--   Base/SystemInfo       base/os_info_unix.cpp; Base/Encoding: base/encoding.cpp
--   Base/Folder, Path     base/path_unix.cpp; Folder/Windows, Path/Windows:
--                         base/path_win.cpp;
--                         Folder/Recursive, Folder/RecursiveWindows: the listing with
--                         recursion, one fuel for each level
--   Base/DynamicLib       base/dynamic_lib_unix.cpp
--   PluginApi             plugin_api: DataChunk (data_chunk.h), Log (plugin_log.cpp), Plugin
--                         (plugin.h), Handler (protocol_handler.h, the contract that the server
--                         relies on, and the promise that what is sent is a queue)
--   Http/Piece, Request   StringPiece, HttpRequest (server_plugin/http/request.h, request.cpp)
--   Http/Parser           HttpRequestParser::Parse: `step` is one round of its loop, `scan` the loop
--   Http/Header, Response server_plugin/http/header.h, response.cpp
--   Http/Handler          HttpHandler (http_handler.cpp): `did_receive` is DidReceive, and so on
--   Http/Plugin           http_plugin.cpp
--   Http/Contract, Stream the handler as an instance of the contract and of the promise
--   Http/Exchange         a connection with this handler, from a chunk to the response on the wire;
--                         Http/Conversation: one request after the other
--   Socket                Net: the system calls, a parameter; TcpSocket (socket.cpp, tcp_socket.cpp);
--                         TcpListener (tcp_listener.cpp)
--   Server/IpEndPoint     server_core/ip_endpoint.cpp
--   Server/Session        session.cpp, tcp_session.cpp; Server/Store: the session list with the heap
--                         of sessions; Server/Loop: ReadData, SendData and the loop of Run
--   Server/Startup, Run   `Server::InitPlugins`, and `Server::Run` as a whole
--   Server/Valid          the invariant of the server, what keeps it, and what a round of the loop
--                         does to each session (Service, Attends)
--   Server/Delivery       what a connection sends over any number of writes: `recorded` is the
--                         system with a record of what is passed to `send`
--   Plugins               server_plugin/server_plugin.cpp, plugin_loader.cpp, and
--                         `Server::LoadPlugins`; Plugins/Calls: the calls into a plugin, which
--                         Main gives to the server as its Server/PluginCalls; Plugins/Lifetime:
--                         the loader again, with the owners of each library, and
--                         `Server::UnloadAllPlugins`
--   Controller            server_plugin/controller
--   Main                  main.cpp, with all of the above
--   Tests                 the theorems at concrete inputs
--
-- A `StringPiece` holds the memory behind its pointer as it was when the piece was made; the handler
-- drops a request once it is parsed to the end, and appends nothing to it after that.
--
-- Memory that a pointer points at is a list of bytes, and a read or write behind its end is a fault;
-- a text held by a `std::string` has its NUL behind it. Numbers are natural numbers or ℤ, with the
-- wrap-around of `unsigned` and the narrowing of the size that `OnWrite` passes to `Send` written
-- out; the `int` length of a `StringPiece` is not narrowed, so texts have less than 2^31 bytes there.
-- The loop of `Parse` runs on fuel: `enough_fuel` is two rounds for each byte and four more, since no
-- two rounds in a row stay at one byte.
--
-- The loop of `Run` does not end by itself: `run_rounds` and `run` are given a number of rounds, and the
-- theorems hold for every number.
--
-- The UNIX build is modelled, with assertions. Not modelled: the Windows variants but for paths and
-- folders, what the server and the plugin loader log (no decision depends on it), what goes to
-- the terminal by `printf` and `perror`, and the copy of Google Test. Files, folders, the dynamic linker
-- and what libraries do, the clock, `sysconf`, `uname`, `wcstombs`, `realpath`, `inet_addr` and the system calls are parameters, with their documented
-- behaviour as named laws where a theorem relies on it.
pub mod Prelude
pub mod Base
pub mod PluginApi
pub mod Http
pub mod Socket
pub mod Plugins
pub mod Server
pub mod Controller
pub mod Main
pub mod Tests
