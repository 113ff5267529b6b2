-- ===== src/Regs/Index.antt =====
-- src/include/init.h: the numbers of the registers and of the channels.
use io_edge_hub_freertos.Common.{ℕ}

abbrev pub do_num : ℕ
do_num = 8

abbrev pub di_num : ℕ
di_num = 16

abbrev pub holding_number : ℕ
holding_number = 18

abbrev pub input_number : ℕ
input_number = 6

abbrev pub input_di_idx : ℕ
input_di_idx = 5

abbrev pub do_idx : ℕ
do_idx = 0

abbrev pub di_enable_idx : ℕ
di_enable_idx = 1

abbrev pub ai_enable_idx : ℕ
ai_enable_idx = 2

abbrev pub di_sample_ms_idx : ℕ
di_sample_ms_idx = 3

abbrev pub ai_sample_ms_idx : ℕ
ai_sample_ms_idx = 4

abbrev pub history_enable_idx : ℕ
history_enable_idx = 5

abbrev pub can_id_idx : ℕ
can_id_idx = 6

abbrev pub can_baudrate_idx : ℕ
can_baudrate_idx = 7

abbrev pub rs485_baudrate_idx : ℕ
rs485_baudrate_idx = 8

abbrev pub slave_id_idx : ℕ
slave_id_idx = 9

abbrev pub ip_octet1_idx : ℕ
ip_octet1_idx = 10

abbrev pub timestamp_hi_idx : ℕ
timestamp_hi_idx = 14

abbrev pub timestamp_lo_idx : ℕ
timestamp_lo_idx = 15

abbrev pub config_save_idx : ℕ
config_save_idx = 16

abbrev pub reboot_idx : ℕ
reboot_idx = 17
