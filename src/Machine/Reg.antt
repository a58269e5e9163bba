-- ===== src/Machine/Reg.antt =====
-- `struct TIPCIE_RegStruct` of TIpcieLib.h: a register is its byte offset, as written there.
use tipcie.Prelude.{ℕ}

abbrev pub board_id : ℕ
board_id = 0x00000

abbrev pub fiber : ℕ
fiber = 0x00004

abbrev pub intsetup : ℕ
intsetup = 0x00008

abbrev pub trig_delay : ℕ
trig_delay = 0x0000c

abbrev pub blocklevel : ℕ
blocklevel = 0x00014

abbrev pub data_format : ℕ
data_format = 0x00018

abbrev pub vme_control : ℕ
vme_control = 0x0001c

abbrev pub trigsrc : ℕ
trigsrc = 0x00020

abbrev pub sync : ℕ
sync = 0x00024

abbrev pub busy : ℕ
busy = 0x00028

abbrev pub clock : ℕ
clock = 0x0002c

abbrev pub trig1_prescale : ℕ
trig1_prescale = 0x00030

abbrev pub block_buffer : ℕ
block_buffer = 0x00034

abbrev pub trigger_rule : ℕ
trigger_rule = 0x00038

abbrev pub trigger_window : ℕ
trigger_window = 0x0003c

abbrev pub ts_input : ℕ
ts_input = 0x00044

abbrev pub output : ℕ
output = 0x0004c

abbrev pub fiber_sync_delay : ℕ
fiber_sync_delay = 0x00050

abbrev pub dma_setting : ℕ
dma_setting = 0x00054

abbrev pub dma_addr : ℕ
dma_addr = 0x00058

abbrev pub pcie_config_link : ℕ
pcie_config_link = 0x0005c

abbrev pub pcie_config_status : ℕ
pcie_config_status = 0x00060

abbrev pub input_prescale : ℕ
input_prescale = 0x00064

abbrev pub fifo : ℕ
fifo = 0x00068

abbrev pub pcie_config : ℕ
pcie_config = 0x0006c

abbrev pub pcie_dev_config : ℕ
pcie_dev_config = 0x00070

abbrev pub pulser_ev_type : ℕ
pulser_ev_type = 0x00074

abbrev pub sync_command : ℕ
sync_command = 0x00078

abbrev pub sync_delay : ℕ
sync_delay = 0x0007c

abbrev pub sync_width : ℕ
sync_width = 0x00080

abbrev pub trigger_command : ℕ
trigger_command = 0x00084

abbrev pub random_pulser : ℕ
random_pulser = 0x00088

abbrev pub fixed_pulser1 : ℕ
fixed_pulser1 = 0x0008c

abbrev pub fixed_pulser2 : ℕ
fixed_pulser2 = 0x00090

abbrev pub nblocks : ℕ
nblocks = 0x00094

abbrev pub sync_history : ℕ
sync_history = 0x00098

abbrev pub running_mode : ℕ
running_mode = 0x0009c

abbrev pub fiber_latency_measurement : ℕ
fiber_latency_measurement = 0x000a0

abbrev pub livetime : ℕ
livetime = 0x000a8

abbrev pub busytime : ℕ
busytime = 0x000ac

abbrev pub gtpstatus_a : ℕ
gtpstatus_a = 0x000b0

abbrev pub gtpstatus_b : ℕ
gtpstatus_b = 0x000b4

abbrev pub gtptrigger_buffer_length : ℕ
gtptrigger_buffer_length = 0x000b8

abbrev pub input_counter : ℕ
input_counter = 0x000bc

abbrev pub block_status : ℕ
block_status = 0x000c0

abbrev pub adr24 : ℕ
adr24 = 0x000d0

abbrev pub sync_event_ctrl : ℕ
sync_event_ctrl = 0x000d4

abbrev pub event_number_hi : ℕ
event_number_hi = 0x000d8

abbrev pub event_number_lo : ℕ
event_number_lo = 0x000dc

abbrev pub roc_enable : ℕ
roc_enable = 0x000ec

abbrev pub blocklimit : ℕ
blocklimit = 0x000fc

abbrev pub reset : ℕ
reset = 0x00100

abbrev pub fp_delay : ℕ
fp_delay = 0x00104

abbrev pub trigger_rule_min : ℕ
trigger_rule_min = 0x00138

abbrev pub trig_table : ℕ
trig_table = 0x00140

abbrev pub ts_scaler : ℕ
ts_scaler = 0x00180

abbrev pub hfbr_ti_id : ℕ
hfbr_ti_id = 0x001d0

abbrev pub master_ti_id : ℕ
master_ti_id = 0x001f0
