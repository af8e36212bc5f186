-- ===== src/Endpoints.antt =====
-- net/Connector, TcpClient, Acceptor and TcpServer: where connections come from.
pub mod Connector
pub mod Acceptor
pub mod TcpServer
pub mod TcpClient
pub mod Tests
