-- ===== src/Rpc/Demo/Outcome.antt =====
-- What the program of client/rpc/client/main.go comes to against the TCP server.
use loopix_messaging.Prelude.{some, bytes}
use loopix_messaging.Client
use loopix_messaging.Messages.{ClientConfig}
use loopix_messaging.Rpc.Requests.{Request, send}

-- The request that the program sends a message with.
abbrev pub greeting : ClientConfig → Request
greeting me = send (some (record { message = some (bytes "foomp"); recipient = some me }))
