-- ===== src/Client.antt =====
-- src/client: the packets of a player, the network thread with the state that it shares with the UI
-- thread, the loop of the UI, the login, and the modes of the program.
pub mod Packets
pub mod Network
pub mod Threads
pub mod Ui
pub mod Stress
pub mod Login
pub mod Draw
pub mod Screens
pub mod Main
pub mod Modes
