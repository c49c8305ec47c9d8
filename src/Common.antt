-- ===== src/Common.antt =====
-- saltyrtc/server/common.py: addresses, client states, close codes and the validation of the
-- fields of a payload.
pub mod Address
pub mod State
pub mod Validate
