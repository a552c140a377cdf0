-- ===== src/Streaming.antt =====
-- Live data for the AI diagnosis (src/streaming).
pub mod Buffer
mod Tests
