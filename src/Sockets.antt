-- ===== src/Sockets.antt =====
-- Package websocket (internal/websocket): the sessions of clients, and the messages between them.
pub mod Address
pub mod Types
pub mod Sessions
pub mod Connections
pub mod Messages
pub mod Window
pub mod Queues
pub mod Delivery
pub mod Reconnect
pub mod Answers
pub mod Authority
mod Tests
pub mod Indexes
pub mod Binding
pub mod Steps
pub mod Kept
pub mod Owned
