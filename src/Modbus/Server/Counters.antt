-- ===== src/Modbus/Server/Counters.antt =====
-- The five 16-bit diagnostic counters.
use io_edge_hub_freertos.Common.{ℕ, ◌+◌, u16}

-- `enum mb_diag_counter`
pub data Counter : Type 0 where
  bus_msg crc_err exc srv_msg no_resp : Counter

-- `diag_ctr[]`
pub record Diag : Type 0 where
  pub bus_msg_ctr : ℕ
  pub crc_err_ctr : ℕ
  pub exc_ctr : ℕ
  pub srv_msg_ctr : ℕ
  pub no_resp_ctr : ℕ

unfoldable pub counter : Diag → Counter → ℕ
counter d bus_msg = d.bus_msg_ctr
counter d crc_err = d.crc_err_ctr
counter d exc = d.exc_ctr
counter d srv_msg = d.srv_msg_ctr
counter d no_resp = d.no_resp_ctr

-- `mb_server_diag_count`
unfoldable pub count : Diag → Counter → Diag
count d bus_msg = record d { bus_msg_ctr = u16 (d.bus_msg_ctr + 1) }
count d crc_err = record d { crc_err_ctr = u16 (d.crc_err_ctr + 1) }
count d exc = record d { exc_ctr = u16 (d.exc_ctr + 1) }
count d srv_msg = record d { srv_msg_ctr = u16 (d.srv_msg_ctr + 1) }
count d no_resp = record d { no_resp_ctr = u16 (d.no_resp_ctr + 1) }

unfoldable pub cleared : Diag
cleared = record { bus_msg_ctr = 0; crc_err_ctr = 0; exc_ctr = 0; srv_msg_ctr = 0; no_resp_ctr = 0 }
