-- ===== src/Net.antt =====
-- The network library, net/.
mod Tests
pub mod Buffer
pub mod Events
pub mod Poller
pub mod Connection
pub mod Timers
pub mod LoopPool
pub mod LoopThread
pub mod LoopQueue
pub mod Loop
pub mod Server
pub mod Sockets
pub mod Registry
pub mod Udp
