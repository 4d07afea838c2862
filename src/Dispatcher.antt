-- ===== src/Dispatcher.antt =====
-- pkg/dispatcher: the queues between the network and the message handlers.
pub mod Config
pub mod Queues
pub mod Workers
pub mod Batch
mod Examples
