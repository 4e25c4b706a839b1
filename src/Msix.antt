-- ===== src/Msix.antt =====
-- MSI-X: the table, the pending bits, and the controller that sends the messages.
pub mod Table
pub mod Pba
pub mod Controller
pub mod Words
pub mod Host
pub mod Fire
pub mod Trigger
