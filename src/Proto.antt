-- ===== src/Proto.antt =====
-- src/proto.c: the text protocol of a client connection.
pub mod Token
pub mod Number
pub mod Subjects
pub mod Frame
pub mod Parser
pub mod Info
