-- ===== src/Bbb/Protocol/Codes.antt =====
-- boards/beaglebone_black/host/hil_pru_protocol.py: the codes of messages and capabilities that only the
-- command lines use.
use hil_lab.Prelude.{ℕ, ◌^◌}

abbrev pub cap_rpmsg : ℕ
cap_rpmsg = 2 ^ 1

abbrev pub cap_gpio_loopback : ℕ
cap_gpio_loopback = 2 ^ 2

abbrev pub cap_watchdog : ℕ
cap_watchdog = 2 ^ 4

abbrev pub cap_shared_snapshot : ℕ
cap_shared_snapshot = 2 ^ 7

abbrev pub cap_raw_edge_capture : ℕ
cap_raw_edge_capture = 2 ^ 8

abbrev pub cap_stimulus_engine : ℕ
cap_stimulus_engine = 2 ^ 9

abbrev pub cap_scheduled_gpio : ℕ
cap_scheduled_gpio = 2 ^ 11

abbrev pub cap_scheduled_apply : ℕ
cap_scheduled_apply = 2 ^ 16

abbrev pub msg_gpio_loopback : ℕ
msg_gpio_loopback = 3

abbrev pub msg_ping : ℕ
msg_ping = 5

abbrev pub msg_raw_config : ℕ
msg_raw_config = 11

abbrev pub msg_raw_start : ℕ
msg_raw_start = 12

abbrev pub msg_raw_stop : ℕ
msg_raw_stop = 13

abbrev pub msg_raw_clear : ℕ
msg_raw_clear = 14

abbrev pub msg_raw_status : ℕ
msg_raw_status = 15

abbrev pub msg_abz_status : ℕ
msg_abz_status = 19

abbrev pub msg_abz_direction : ℕ
msg_abz_direction = 20

abbrev pub msg_abz_arm : ℕ
msg_abz_arm = 21

abbrev pub msg_abz_schedule : ℕ
msg_abz_schedule = 22

abbrev pub msg_hall_config : ℕ
msg_hall_config = 23

abbrev pub msg_hall_start : ℕ
msg_hall_start = 24

abbrev pub msg_hall_stop : ℕ
msg_hall_stop = 25

abbrev pub msg_hall_status : ℕ
msg_hall_status = 26

abbrev pub msg_serial_config : ℕ
msg_serial_config = 27

abbrev pub msg_serial_data : ℕ
msg_serial_data = 28

abbrev pub msg_serial_start : ℕ
msg_serial_start = 29

abbrev pub msg_serial_stop : ℕ
msg_serial_stop = 30

abbrev pub msg_serial_status : ℕ
msg_serial_status = 31

abbrev pub msg_stim_status : ℕ
msg_stim_status = 32
