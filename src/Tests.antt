-- ===== src/Tests.antt =====
-- Runs of the model at concrete inputs.
mod Game
mod Schedule
mod Checks
mod Connection
mod Screens
mod Threads
mod Login
mod Modes
mod Animations
mod Answers
mod RoundTrip
mod Sessions
mod Volleys
