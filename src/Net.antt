-- ===== src/Net.antt =====
-- The event loop and the TCP connections: src/Channel, src/EpollPoller, src/EventLoop,
-- src/EventLoopThreadPool, src/TcpConnection and src/TcpServer.
pub mod Channel
pub mod Poller
pub mod Loop
pub mod Connection
pub mod ThreadPool
pub mod LoopThread
pub mod Server
pub mod Acceptor
mod Tests
