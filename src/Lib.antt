-- ===== src/Lib.antt =====
-- Loopix in Go: a mix network of clients, mix nodes and providers.
--
-- A client (client/client.go on clientcore/mixClient.go) reads the topology from a directory
-- server (helpers/topology/topology.go), chooses a path over its provider, one mix of each of
-- three layers and the recipient's provider, and packs a message for it as a Sphinx packet
-- (sphinx/sphinx.go). Each node on the path (node/mix.go, run by server/mixnode/mixServer.go and
-- server/provider/providerServer.go) takes one layer off and forwards the rest. The last provider
-- stores what is left in an inbox, and the recipient pulls it from there. The parties exchange
-- general packets with a flag (config/config.go, flags/flags.go).
--
-- Files and what they model:
--   Prelude              tests, slices and maps of Go, outcomes (a value, an error, a panic), XOR
--   Flags                flags/flags.go
--   Messages             the structs of config/structs.pb.go and sphinx/sphinx_structs.pb.go
--   Config               config/config.go
--   Sphinx/Library       what sphinx/ calls of its libraries, with the documented laws
--   Sphinx/Crypto        sphinx/crypto.go, sphinx/utils.go
--   Sphinx/Curve         sphinx/crypto_curve25519.go
--   Sphinx/Packing       the sending half of sphinx/sphinx.go, with the fillers in Sphinx/Fillers
--   Sphinx/Processing    the receiving half of sphinx/sphinx.go
--   Node                 node/mix.go
--   Topology             helpers/topology/topology.go
--   Helpers              helpers/crypto.go
--   Wire                 the marshalling of the messages of config/structs.proto
--   ClientCore           clientcore/mixClient.go
--   Client               client/client.go
--   Network              what the network answers to a server, and what reaches it
--   Mixnode              server/mixnode/mixServer.go, with its metrics in Mixnode/Counters
--                        and its constructor and reports in Mixnode/Lifecycle; its goroutines
--                        that count and report are in Mixnode/Interleaving
--   Provider             server/provider/providerServer.go, with the file system in
--                        Provider/Inboxes and the handling of connections in Provider/Connections;
--                        its constructor and presences are in Provider/Lifecycle
--   Client/Config        client/config
--   Client/Start         the making and starting of a client in client/client.go
--   Client/Traffic       the loops that send and fetch in client/client.go
--   Helpers/Directory    helpers/network.go
--   Helpers/Pem          helpers/utilities.go, but for the directory test in Provider/Inboxes
--   Logger               logger/logger.go
--   Rpc                  client/rpc/utils/utils.go
--   Rpc/Requests         client/rpc/types and client/rpc/requesthandler
--   Rpc/Tcp              client/rpc/tcpsocket
--   Rpc/Websocket        client/rpc/websocket and client/rpc/server.go, with the making and shutting
--                        down of a server in Rpc/Websocket/Lifecycle
--   Rpc/Demo             client/rpc/client/main.go
--   Cmd                  the programs under cmd: Cmd/Client, Cmd/Provider and Cmd/Bench
--   Bench                server/provider/benchprovider.go and client/benchclient/benchclient.go
-- The other files under these hold proofs, and Examples holds concrete libraries, networks and
-- runs.
--
-- A definition keeps the name of its function in snake case. State is a record that an operation
-- takes and gives back; an error is a value, and a run-time panic is a value of its own, so that
-- an index or a nil pointer that is not tested shows in the results. A goroutine that a handler
-- starts is a function of its own, on the state at the time it runs. Strings and byte slices are
-- lists of numbers; a float64 is carried as its bit pattern; counters of type uint wrap at 2 ^
-- 64.
--
-- A client can be driven by another program: over TCP, with messages behind their lengths, or
-- over a websocket, with one message for each request. Both call the same handlers, which use the
-- client. A client's own traffic runs beside them: what callers hand to its outgoing queue leaves
-- in rounds, and a round without a packet sends one for cover.
--
-- Parameters: the cryptographic primitives and the marshalling (`Library`, `Wire`, `Codec`), the
-- draws of math/rand and the operations on floats (`Random`), base64 and the splitting of
-- addresses (`Encoding`, `Addresses`), paths, TOML and log levels (`Platform`), PEM (`Pem`), the
-- posts to the directory server (`Directory`), the failures of the operating system (`Faults`)
-- and of the network (`Network`), and the clock. The laws that are assumed of them are the
-- records `IsLawful`, `IsCodec`, `IsWire`, `IsProtobuf`, `IsRandom`, `IsPlatform` and `IsPem`.
-- Requests and responses are read back as `ReadsBack` says, a request as `received`: protobuf keeps
-- no difference between an empty message to send and none.
-- What the outside gives to a loop stands in a list of rounds (`Round`) or a function of the
-- number of the round (`Moment`).
--
-- Every loop is recursion on a list or on a counter, but for the one that reads requests from a
-- connection, which has fuel: one round more than there are bytes, or than there are requests, is
-- enough.
--
-- The programs of cmd set a client up in files and run it, and keep a provider's keys over its
-- runs; files are a map from paths to what they hold.
--
-- Not modelled: what is logged, the sleeps, the goroutines of a connection as interleavings (but
-- those that count in a mix node are), the constructor of a mix node for tests, the tables of
-- commands of the entry points, and vendored code. They are input and output around the parts
-- above.
pub mod Prelude
pub mod Flags
pub mod Config
pub mod Messages
pub mod Sphinx
pub mod Node
pub mod Topology
pub mod Helpers
pub mod Wire
pub mod ClientCore
pub mod Network
pub mod Mixnode
pub mod Provider
pub mod Bench
pub mod Logger
pub mod Client
pub mod Rpc
pub mod Cmd
pub mod Examples
