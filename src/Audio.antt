-- ===== src/Audio.antt =====
-- audio.c: the choice of a sample format, and the choice of the file to play.
pub mod Formats
pub mod Position
mod Tests
