-- ===== src/Usb.antt =====
-- The USB monitor, src/bsa_pcie_exerciser/gateware/usb/monitor/: the capture of packets, the layout
-- of their headers, and the arbiter that merges the two directions.
pub mod Layouts
pub mod Arbiter
pub mod Capture
pub mod Streams
pub mod Packetizer
pub mod Depacketizer
pub mod Link
pub mod Host
pub mod Crossbar
pub mod Fifo
pub mod Taps
pub mod Top
