-- ===== src/Audio.antt =====
-- audio/mic_fixer.cpp: the thread that sets the routes of the microphone when a call comes in.
pub mod Commands
pub mod Routes
pub mod Polling
pub mod Alsa
pub mod Isolation
pub mod Threads
