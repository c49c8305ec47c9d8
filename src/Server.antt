-- ===== src/Server.antt =====
-- saltyrtc/server/server.py: the choice of the sub-protocol, the authentication of a client, the
-- end of a client's handler, and the dictionary of the paths.
pub mod Subprotocol
pub mod Authentication
pub mod Closing
pub mod Paths
pub mod Connection
pub mod Exchange
pub mod Handshake
pub mod Relay
pub mod Shutdown
pub mod KeepAlive
pub mod Events
pub mod Accepting
pub mod Handling
pub mod Tests
