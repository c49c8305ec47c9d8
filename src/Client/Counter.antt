-- ===== src/Client/Counter.antt =====
-- The combined sequence number, and `PathClient._increment_csn` of saltyrtc/server/protocol.py.
use saltyrtc_server_python.Prelude.{ℕ, ◌+◌, ◌/◌, ◌%◌, ◌^◌, ◌<◌, ◌≡◌, arith, ◌==◌, if◌then◌else◌}

pub data Csn : Type 0 where
  csn : ℕ → Csn
  overflow_sentinel : Csn

-- `csn_value & 0xf000000000000 != 0` tests the bits 48 to 51.
unfoldable pub increment_csn : Csn → Csn
increment_csn overflow_sentinel = overflow_sentinel
increment_csn (csn n) =
    let csn_value = n + 1 in
    if (csn_value / 2 ^ 48) % 16 == 0 then csn csn_value else overflow_sentinel

-- Below 2 ^ 48 the number grows by one, and becomes the sentinel exactly at the end of the range.
pub increment_csn_lem :
    (n : ℕ)
    → n < 2 ^ 48
    → increment_csn (csn n) ≡ (if n + 1 == 2 ^ 48 then overflow_sentinel else csn (n + 1))
unfolding increment_csn
increment_csn_lem n h = ground arith
