-- ===== src/Net.antt =====
-- The network: sockets, the web server and the clients that speak to it.
pub mod Socket
pub mod Url
pub mod Web
pub mod HttpClient
pub mod Exchange
