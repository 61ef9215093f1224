-- ===== src/Client.antt =====
-- The client program: Client/*.cpp.
pub mod Transport
pub mod Dispatcher
pub mod Network
pub mod FlowState
pub mod ChatState
pub mod HistoryStore
pub mod ChatWindow
pub mod FlowController
