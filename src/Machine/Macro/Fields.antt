-- ===== src/Machine/Macro/Fields.antt =====
-- The second third of the macros `TIP_…` of TIpcieLib.h, in the order of that file.
use tipcie.Prelude.{ℕ}

abbrev pub busy_loopback : ℕ
busy_loopback = 0x80

abbrev pub busy_hfbr1 : ℕ
busy_hfbr1 = 0x100

abbrev pub busy_hfbr_mask : ℕ
busy_hfbr_mask = 0xff00

abbrev pub clock_internal : ℕ
clock_internal = 0

abbrev pub clock_hfbr1 : ℕ
clock_hfbr1 = 2

abbrev pub clock_mask : ℕ
clock_mask = 0xf

abbrev pub blockbuffer_bufferlevel_mask : ℕ
blockbuffer_bufferlevel_mask = 0xff

abbrev pub blockbuffer_blocks_ready_mask : ℕ
blockbuffer_blocks_ready_mask = 0xff00

abbrev pub blockbuffer_triggers_needed_in_block : ℕ
blockbuffer_triggers_needed_in_block = 0xff0000

abbrev pub blockbuffer_ro_nevents_mask : ℕ
blockbuffer_ro_nevents_mask = 0x7000000

abbrev pub blockbuffer_busy_on_blocklimit : ℕ
blockbuffer_busy_on_blocklimit = 0x10000000

abbrev pub blockbuffer_syncreset_requested : ℕ
blockbuffer_syncreset_requested = 0x40000000

abbrev pub blockbuffer_syncevent : ℕ
blockbuffer_syncevent = 0x80000000

abbrev pub triggerrule_rule1_mask : ℕ
triggerrule_rule1_mask = 0xff

abbrev pub triggerrule_rule2_mask : ℕ
triggerrule_rule2_mask = 0xff00

abbrev pub triggerrule_rule3_mask : ℕ
triggerrule_rule3_mask = 0xff0000

abbrev pub triggerrule_rule4_mask : ℕ
triggerrule_rule4_mask = 0xff000000

abbrev pub triggerwindow_coinc_mask : ℕ
triggerwindow_coinc_mask = 0xff

abbrev pub triggerwindow_inhibit_mask : ℕ
triggerwindow_inhibit_mask = 0xff00

abbrev pub triggerwindow_trig21_mask : ℕ
triggerwindow_trig21_mask = 0x1ff0000

abbrev pub triggerwindow_level_latch : ℕ
triggerwindow_level_latch = 0x80000000

abbrev pub tsinput_all : ℕ
tsinput_all = 0x3f

abbrev pub fibersyncdelay_loopback_syncdelay_mask : ℕ
fibersyncdelay_loopback_syncdelay_mask = 0xff0000

abbrev pub dmasetting_phys_addr_hi_mask : ℕ
dmasetting_phys_addr_hi_mask = 0xffff

abbrev pub synccommand_clk250_resync : ℕ
synccommand_clk250_resync = 0x22

abbrev pub synccommand_ad9510_resync : ℕ
synccommand_ad9510_resync = 0x33

abbrev pub synccommand_triggerlink_enable : ℕ
synccommand_triggerlink_enable = 0x55

abbrev pub synccommand_triggerlink_disable : ℕ
synccommand_triggerlink_disable = 0x77

abbrev pub synccommand_syncreset_high : ℕ
synccommand_syncreset_high = 0x99

abbrev pub synccommand_trigger_ready_reset : ℕ
synccommand_trigger_ready_reset = 0xaa

abbrev pub synccommand_reset_evnum : ℕ
synccommand_reset_evnum = 0xbb

abbrev pub synccommand_syncreset_low : ℕ
synccommand_syncreset_low = 0xcc

abbrev pub synccommand_syncreset : ℕ
synccommand_syncreset = 0xdd

abbrev pub synccommand_syncreset_4us : ℕ
synccommand_syncreset_4us = 0xee

abbrev pub syncdelay_mask : ℕ
syncdelay_mask = 0x7f

abbrev pub syncwidth_mask : ℕ
syncwidth_mask = 0x7f

abbrev pub syncwidth_longwidth_enable : ℕ
syncwidth_longwidth_enable = 0x80

abbrev pub triggercommand_set_blocklevel : ℕ
triggercommand_set_blocklevel = 0x800

abbrev pub triggercommand_set_bufferlevel : ℕ
triggercommand_set_bufferlevel = 0xc00

abbrev pub randompulser_trig1_rate_mask : ℕ
randompulser_trig1_rate_mask = 0xf

abbrev pub randompulser_trig1_enable : ℕ
randompulser_trig1_enable = 0x80

abbrev pub randompulser_trig2_enable : ℕ
randompulser_trig2_enable = 0x8000

abbrev pub fixedpulser1_ntriggers_mask : ℕ
fixedpulser1_ntriggers_mask = 0xffff

abbrev pub fixedpulser1_period_mask : ℕ
fixedpulser1_period_mask = 0x7fff0000

abbrev pub synchistory_hfbr1_code_mask : ℕ
synchistory_hfbr1_code_mask = 0xf

abbrev pub synchistory_loopback_code_mask : ℕ
synchistory_loopback_code_mask = 0x3c00

abbrev pub runningmode_enable : ℕ
runningmode_enable = 0x71

abbrev pub runningmode_disable : ℕ
runningmode_disable = 0

abbrev pub fiberlatencymeasurement_data_mask : ℕ
fiberlatencymeasurement_data_mask = 0xff800000

abbrev pub synceventctrl_nblocks_mask : ℕ
synceventctrl_nblocks_mask = 0xffffff

abbrev pub prompt_trig_width_mask : ℕ
prompt_trig_width_mask = 0x7f

abbrev pub eventnumber_hi_mask : ℕ
eventnumber_hi_mask = 0xffff0000
