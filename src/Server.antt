-- ===== src/Server.antt =====
-- src/server.cpp: the connections, the sockets, the life of the server and its loop.
pub mod Bodies
pub mod Connection
pub mod Accounting
pub mod Wire
pub mod Exchange
pub mod Write
pub mod Os
pub mod Listen
pub mod Lifecycle
pub mod Run
pub mod MetricsFile
pub mod Describe
