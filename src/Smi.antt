-- ===== src/Smi.antt =====
-- ad_comm/smi.h and ad_comm/smi_server.c: messages between one server and its clients over named
-- pipes. Clients is the table of clients, Server the handling of messages, Session what opens and
-- closes a queue, and Main the program.
pub mod Clients
pub mod Server
pub mod Session
pub mod Main
mod Tests
