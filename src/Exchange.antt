-- ===== src/Exchange.antt =====
-- The wire between a caller and the process that works for it. The client of src/mvsession.c talks
-- to BP/GIT.AGENT, and the client of src/gitd.c is GIT.RPC in BASIC; both use the frames of
-- src/gitproto.h. Request and Talk put such frames into gitd's pipe, in the bytes that call_raw lays
-- them out in, and Reply reads the agent's replies.
pub mod Fields
pub mod Request
pub mod Reply
pub mod Talk
