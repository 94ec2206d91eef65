-- ===== src/Execproto.antt =====
-- execproto: the wire protocol of the machine-mode exec listener.
pub mod Frame
pub mod Request
pub mod RoundTrip
pub mod Sound
pub mod Opening
