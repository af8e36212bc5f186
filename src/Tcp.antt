-- ===== src/Tcp.antt =====
-- A connection: net/TcpConnection.h and TcpConnection.cc.
pub mod Connection
pub mod Transfer
pub mod Retransmit
pub mod Tests
