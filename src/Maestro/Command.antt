-- ===== src/Maestro/Command.antt =====
-- `maestro_command_t` of maestro_note.h, numbered as the enumeration numbers them.
use msg_perf_tool.Base.{ℕ}

abbrev pub start_receiver : ℕ
start_receiver = 0

abbrev pub stop_receiver : ℕ
stop_receiver = 1

abbrev pub start_sender : ℕ
start_sender = 2

abbrev pub stop_sender : ℕ
stop_sender = 3

abbrev pub start_inspector : ℕ
start_inspector = 4

abbrev pub stop_inspector : ℕ
stop_inspector = 5

abbrev pub flush : ℕ
flush = 6

abbrev pub set : ℕ
set = 7

abbrev pub stats : ℕ
stats = 8

abbrev pub halt : ℕ
halt = 9

abbrev pub ping : ℕ
ping = 10

abbrev pub ok : ℕ
ok = 11

abbrev pub protocol_error : ℕ
protocol_error = 12

abbrev pub internal_error : ℕ
internal_error = 13

abbrev pub abnormal_disconnect : ℕ
abnormal_disconnect = 14

abbrev pub notify_fail : ℕ
notify_fail = 15

abbrev pub notify_success : ℕ
notify_success = 16
