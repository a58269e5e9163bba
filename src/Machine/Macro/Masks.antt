-- ===== src/Machine/Macro/Masks.antt =====
-- The first third of the macros `TIP_…` of TIpcieLib.h, in the order of that file.
use tipcie.Prelude.{ℕ}

abbrev pub readout_ext_poll : ℕ
readout_ext_poll = 2

abbrev pub readout_ts_poll : ℕ
readout_ts_poll = 3

abbrev pub supported_firmware : ℕ
supported_firmware = 0x95

abbrev pub supported_type : ℕ
supported_type = 3

abbrev pub firmware_type_mask : ℕ
firmware_type_mask = 0xf000

abbrev pub boardid_type_ti : ℕ
boardid_type_ti = 0x7100

abbrev pub boardid_type_mask : ℕ
boardid_type_mask = 0xff000000

abbrev pub boardid_crateid_mask : ℕ
boardid_crateid_mask = 0xff

abbrev pub fiber_connected_mask : ℕ
fiber_connected_mask = 0xff0000

abbrev pub fiber_trigsrc_enabled_mask : ℕ
fiber_trigsrc_enabled_mask = 0xff000000

abbrev pub intsetup_enable : ℕ
intsetup_enable = 0x10000

abbrev pub trigdelay_trig1_64ns_step : ℕ
trigdelay_trig1_64ns_step = 0x80

abbrev pub trigdelay_trig2_64ns_step : ℕ
trigdelay_trig2_64ns_step = 0x800000

abbrev pub blocklevel_mask : ℕ
blocklevel_mask = 0xff

abbrev pub blocklevel_current_mask : ℕ
blocklevel_current_mask = 0xff0000

abbrev pub blocklevel_received_mask : ℕ
blocklevel_received_mask = 0xff000000

abbrev pub dataformat_timing_word : ℕ
dataformat_timing_word = 2

abbrev pub dataformat_higherbits_word : ℕ
dataformat_higherbits_word = 4

abbrev pub dataformat_fpinput_readout : ℕ
dataformat_fpinput_readout = 8

abbrev pub dataformat_bcast_bufferlevel_mask : ℕ
dataformat_bcast_bufferlevel_mask = 0xff000000

abbrev pub vmecontrol_blocklevel_update : ℕ
vmecontrol_blocklevel_update = 0x200000

abbrev pub vmecontrol_use_local_bufferlevel : ℕ
vmecontrol_use_local_bufferlevel = 0x400000

abbrev pub vmecontrol_busy_on_bufferlevel : ℕ
vmecontrol_busy_on_bufferlevel = 0x800000

abbrev pub vmecontrol_dma_data_enable : ℕ
vmecontrol_dma_data_enable = 0x4000000

abbrev pub vmecontrol_slower_trigger_rules : ℕ
vmecontrol_slower_trigger_rules = 0x80000000

abbrev pub vmecontrol_dmasetting_mask : ℕ
vmecontrol_dmasetting_mask = 0x1c00000

abbrev pub trigsrc_sourcemask : ℕ
trigsrc_sourcemask = 0xf3ff

abbrev pub trigsrc_p0 : ℕ
trigsrc_p0 = 1

abbrev pub trigsrc_hfbr1 : ℕ
trigsrc_hfbr1 = 2

abbrev pub trigsrc_loopback : ℕ
trigsrc_loopback = 4

abbrev pub trigsrc_fptrg : ℕ
trigsrc_fptrg = 8

abbrev pub trigsrc_vme : ℕ
trigsrc_vme = 0x10

abbrev pub trigsrc_tsinputs : ℕ
trigsrc_tsinputs = 0x20

abbrev pub trigsrc_tsrev2 : ℕ
trigsrc_tsrev2 = 0x40

abbrev pub trigsrc_pulser : ℕ
trigsrc_pulser = 0x80

abbrev pub trigsrc_trig21 : ℕ
trigsrc_trig21 = 0x800

abbrev pub trigsrc_part_1 : ℕ
trigsrc_part_1 = 0x1000

abbrev pub trigsrc_part_2 : ℕ
trigsrc_part_2 = 0x2000

abbrev pub trigsrc_part_3 : ℕ
trigsrc_part_3 = 0x4000

abbrev pub trigsrc_part_4 : ℕ
trigsrc_part_4 = 0x8000

abbrev pub trigsrc_force_send : ℕ
trigsrc_force_send = 0xfc0000

abbrev pub sync_sourcemask : ℕ
sync_sourcemask = 0xff

abbrev pub sync_hfbr1 : ℕ
sync_hfbr1 = 2

abbrev pub sync_loopback : ℕ
sync_loopback = 0x10

abbrev pub sync_user_syncreset_enabled : ℕ
sync_user_syncreset_enabled = 0x80

abbrev pub sync_hfbr1_code_mask : ℕ
sync_hfbr1_code_mask = 0xf00

abbrev pub sync_loopback_code_mask : ℕ
sync_loopback_code_mask = 0xf0000

abbrev pub sync_history_fifo_mask : ℕ
sync_history_fifo_mask = 0x700000

abbrev pub sync_history_fifo_empty : ℕ
sync_history_fifo_empty = 0x100000

abbrev pub sync_history_fifo_half_full : ℕ
sync_history_fifo_half_full = 0x200000

abbrev pub busy_sourcemask : ℕ
busy_sourcemask = 0xffff

abbrev pub busy_trigger_lock : ℕ
busy_trigger_lock = 0x40
