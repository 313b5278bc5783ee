-- ===== src/Pcm.antt =====
-- pcm.c and pcm_convert.h: reading samples of raw PCM, opening a stream with the format that the
-- server gives, and the WAV and AIFF header that may override it.
pub mod Convert
pub mod Chunks
pub mod Header
pub mod Open
pub mod Decode
mod Tests
