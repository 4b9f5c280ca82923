-- ===== src/Examples.antt =====
-- examples: the programs that use the two libraries. What `std::net`, mio and the standard input
-- give is an argument.
pub mod Countdown
pub mod Reading
pub mod Server
pub mod TcpServer
pub mod Sockets
pub mod Events
mod Tests
