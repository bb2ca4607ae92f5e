-- ===== src/Handler.antt =====
-- src/server/logic/client_handler.c: the worker of one client. The calls of gamestate.c are made on
-- the memory as it is at that point; what other workers do between two calls is in the module Raid.
pub mod Packets
pub mod Session
