-- ===== src/Dma.antt =====
-- The DMA engine, the internal buffer, and the host's window on it.
pub mod Engine
pub mod Channel
pub mod Write
pub mod Finish
pub mod Read
pub mod Store
pub mod Window
