-- ===== src/Stream.antt =====
-- internal/stream: the wire header, the receiver's accumulator, and the packet path from the
-- socket (Hub) to the accumulator (Receiver).
pub mod Header
pub mod Stats
pub mod Net
pub mod Hub
pub mod Receiver
pub mod Sender
pub mod KernelDrops
