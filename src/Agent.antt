-- ===== src/Agent.antt =====
-- The agent (agent/*.go).
pub mod WebSocket
pub mod Bitrate
pub mod Pipe
pub mod Reconnect
pub mod Encoders
pub mod StreamLoop
pub mod Input
pub mod CrossSession
pub mod Streams
pub mod Pixels
pub mod AnnexB
pub mod Chats
pub mod Commands
pub mod DeviceUuid
pub mod LogonSessions
pub mod Libraries
pub mod Capture
