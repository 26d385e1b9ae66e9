-- ===== src/Media.antt =====
-- What is done with the frames of a remote video: the recorder.
pub mod Recorder
pub mod Writing
pub mod Recording
