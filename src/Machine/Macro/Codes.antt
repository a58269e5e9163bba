-- ===== src/Machine/Macro/Codes.antt =====
-- The last third of the macros `TIP_…` of TIpcieLib.h, in the order of that file.
use tipcie.Prelude.{ℕ}

abbrev pub rocenable_mask : ℕ
rocenable_mask = 0xff

abbrev pub rocenable_fifo_enable : ℕ
rocenable_fifo_enable = 2

abbrev pub rocenable_syncreset_request_monitor_mask : ℕ
rocenable_syncreset_request_monitor_mask = 0x1ff00000

abbrev pub reset_jtag : ℕ
reset_jtag = 4

abbrev pub reset_soft : ℕ
reset_soft = 0x10

abbrev pub reset_sync_history : ℕ
reset_sync_history = 0x40

abbrev pub reset_busyack : ℕ
reset_busyack = 0x80

abbrev pub reset_clk250 : ℕ
reset_clk250 = 0x100

abbrev pub reset_clk125 : ℕ
reset_clk125 = 0x200

abbrev pub reset_mgt : ℕ
reset_mgt = 0x400

abbrev pub reset_autoalign_hfbr1_sync : ℕ
reset_autoalign_hfbr1_sync = 0x800

abbrev pub reset_fiber_auto_align : ℕ
reset_fiber_auto_align = 0x2000

abbrev pub reset_iodelay : ℕ
reset_iodelay = 0x4000

abbrev pub reset_measure_latency : ℕ
reset_measure_latency = 0x8000

abbrev pub reset_block_readout : ℕ
reset_block_readout = 0x20000

abbrev pub reset_force_syncevent : ℕ
reset_force_syncevent = 0x100000

abbrev pub reset_mgt_receiver : ℕ
reset_mgt_receiver = 0x400000

abbrev pub reset_syncreset_request : ℕ
reset_syncreset_request = 0x800000

abbrev pub reset_scalers_latch : ℕ
reset_scalers_latch = 0x1000000

abbrev pub reset_scalers_reset : ℕ
reset_scalers_reset = 0x2000000

abbrev pub reset_fill_to_end_block : ℕ
reset_fill_to_end_block = 0x80000000

abbrev pub triggerrulemin_min2_mask : ℕ
triggerrulemin_min2_mask = 0x7f00

abbrev pub triggerrulemin_min2_en : ℕ
triggerrulemin_min2_en = 0x8000

abbrev pub triggerrulemin_min3_mask : ℕ
triggerrulemin_min3_mask = 0x7f0000

abbrev pub triggerrulemin_min3_en : ℕ
triggerrulemin_min3_en = 0x800000

abbrev pub triggerrulemin_min4_mask : ℕ
triggerrulemin_min4_mask = 0x7f000000

abbrev pub triggerrulemin_min4_en : ℕ
triggerrulemin_min4_en = 0x80000000

abbrev pub id_trigsrc_enable_mask : ℕ
id_trigsrc_enable_mask = 0xff

abbrev pub id_crateid_mask : ℕ
id_crateid_mask = 0xff00

abbrev pub id_blocklevel_mask : ℕ
id_blocklevel_mask = 0xff0000

abbrev pub trigger_p0 : ℕ
trigger_p0 = 0

abbrev pub trigger_hfbr1 : ℕ
trigger_hfbr1 = 1

abbrev pub trigger_fptrg : ℕ
trigger_fptrg = 2

abbrev pub trigger_tsinputs : ℕ
trigger_tsinputs = 3

abbrev pub trigger_tsrev2 : ℕ
trigger_tsrev2 = 4

abbrev pub trigger_pulser : ℕ
trigger_pulser = 5

abbrev pub trigger_part_1 : ℕ
trigger_part_1 = 6

abbrev pub trigger_part_2 : ℕ
trigger_part_2 = 7

abbrev pub trigger_part_3 : ℕ
trigger_part_3 = 8

abbrev pub trigger_part_4 : ℕ
trigger_part_4 = 9

abbrev pub trigger_trig21 : ℕ
trigger_trig21 = 0xb

abbrev pub int_vec : ℕ
int_vec = 0xec

abbrev pub int_level : ℕ
int_level = 5

abbrev pub data_type_define_mask : ℕ
data_type_define_mask = 0x80000000

abbrev pub word_type_mask : ℕ
word_type_mask = 0x78000000

abbrev pub block_header_word_type : ℕ
block_header_word_type = 0

abbrev pub block_trailer_word_type : ℕ
block_trailer_word_type = 0x8000000

abbrev pub data_blklevel_mask : ℕ
data_blklevel_mask = 0xff

abbrev pub init_no_init : ℕ
init_no_init = 1

abbrev pub init_skip_firmware_check : ℕ
init_skip_firmware_check = 2

abbrev pub init_use_dma : ℕ
init_use_dma = 4
