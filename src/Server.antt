-- ===== src/Server.antt =====
-- server.go, server_connected.go, server_unconnected.go and server_listidentity.go: the requests that one
-- connection of the server handles.
pub mod Session
pub mod Messages
pub mod Writes
pub mod Replies
pub mod Attributes
pub mod Access
pub mod Connected
pub mod Multi
pub mod Unconnected
pub mod Opening
pub mod Serve
pub mod Steady
pub mod Ends
pub mod SendsOne
pub mod Answers
pub mod Strings
pub mod Sorted
pub mod Symbols
pub mod Opened
pub mod Keeps
pub mod MultiSent
pub mod Gathered
mod Tests
