-- ===== src/WebSocket.antt =====
-- tamer/websocket.tcc and tamer/websocket.hh: WebSocket frames and messages. A byte is a number below 256.
pub mod Utf8
pub mod Mask
pub mod Frame
pub mod Send
mod Tests
