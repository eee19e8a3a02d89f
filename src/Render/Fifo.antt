-- ===== src/Render/Fifo.antt =====
-- The packet ring of one window as a queue: the Lua thread acquires and commits slots
-- (runtime/boot/engine_api.lua), the render thread takes them.
pub mod System
mod Inv
mod Producer
mod Consumer
mod Steps
pub mod Order
pub mod Refill
pub mod Contents
pub mod Scan
pub mod Window
pub mod Windows
pub use System.*
pub use Inv.*
