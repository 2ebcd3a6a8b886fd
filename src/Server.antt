-- ===== src/Server.antt =====
-- src/server/server.hpp and src/server/server.cpp: the class WhiteboardServer.
pub mod Mongo
pub mod Sessions
pub mod ThreadPool
pub mod Accept
pub mod State
pub mod Users
pub mod Elements
pub mod Boards
pub mod Connection
pub mod Acts
pub mod Running
pub mod Keeps
pub mod Stable
