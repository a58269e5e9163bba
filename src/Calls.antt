-- ===== src/Calls.antt =====
-- The functions of the library that a program calls once the card is set up, as one type, and a
-- thread's program as a list of calls. `tip_init` and `tip_close` are left out: the first writes
-- registers without the mutex, and after the second the registers are gone. So are `tip_block_status`, which reads
-- without the mutex, and `tip_read_fiber_fifo` and `tip_get_gtpbuffer_length`, which do not check that
-- the card is open.
pub mod Idle
pub mod Closed
use tipcie.Prelude.{ℕ, ℤ, Bool, Option, List, [], ◌∷◌}
use tipcie.Machine.{Device, M, World, pure, ◌>>◌}
use tipcie.Format.{Buffer}
use tipcie.Block.{
  tip_get_next_block_level, tip_get_current_block_level, tip_broadcast_next_block_level,
  tip_set_block_level, tip_set_instant_block_level_change, tip_get_instant_block_level_change,
}
use tipcie.Buffer.{
  tip_set_block_buffer_level, tip_get_broadcast_block_buffer_level, tip_busy_on_buffer_level,
  tip_use_broadcast_buffer_level, tip_set_block_limit, tip_get_block_limit,
  tip_get_block_limit_status, tip_bready, tip_get_sync_event_flag, tip_get_sync_event_received,
  tip_get_readout_events,
}
use tipcie.Crate.{
  tip_set_fiber_latency_offset_pre_init, tip_set_crate_id_pre_init, tip_set_crate_id,
  tip_get_crate_id, tip_get_port_trig_src_enabled, tip_get_slave_blocklevel, tip_reset,
  tip_clock_resync,
}
use tipcie.Trigger.{
  tip_set_trigger_source, tip_set_trigger_source_mask, tip_enable_trigger_source,
  tip_fill_to_end_block, tip_disable_trigger_source, tip_trigger_ready_reset,
  tip_force_send_trigger_source_enable,
}
use tipcie.Pulser.{
  tip_soft_trig, tip_set_random_trigger, tip_disable_random_trigger, tip_set_prescale,
  tip_set_prompt_trigger_width, tip_get_prescale, tip_get_prompt_trigger_width,
  tip_set_input_prescale, tip_get_input_prescale, tip_set_trigger_pulse,
}
use tipcie.Sync.{
  tip_set_sync_source, tip_set_sync_delay_width, tip_trig_link_reset, tip_set_sync_reset_type,
  tip_sync_reset_resync, tip_reset_event_counter, tip_sync_reset, tip_clock_reset,
  tip_get_event_counter,
}
use tipcie.Inputs.{
  tip_enable_ts_input, tip_set_output_port, tip_disable_ts_input, tip_set_event_format,
  tip_set_fp_input_readout,
}
use tipcie.Fiber.{
  tip_set_fiber_delay, tip_enable_fiber, tip_disable_fiber, tip_set_busy_source,
  tip_set_trigger_lock, tip_get_trigger_lock, tip_reset_slave_config, tip_add_slave,
  tip_set_clock_source, tip_get_clock_source,
}
use tipcie.Setup.{
  tip_open, tip_reset_mgt, tip_get_firmware_version, tip_enable_fifo, tip_dma_config,
  tip_dma_set_addr, Os,
}
use tipcie.Holdoff.{
  tip_set_trigger_holdoff, tip_get_trigger_holdoff, tip_set_trigger_holdoff_min,
  tip_get_trigger_holdoff_min,
}
use tipcie.Table.{
  tip_trigger_table_config, tip_get_trigger_table, tip_trigger_table_predefined_config,
  tip_define_event_type, tip_define_pulser_event_type, tip_load_trigger_table,
}
use tipcie.Window.{
  tip_set_trigger_window, tip_get_trigger_window, tip_set_trigger_inhibit_window,
  tip_get_trigger_inhibit_window, tip_set_trig21_delay, tip_get_trig21_delay,
  tip_set_trigger_latch_on_level, tip_get_trigger_latch_on_level,
}
use tipcie.Scalers.{
  tip_latch_timers, tip_get_live_time, tip_get_busy_time, tip_live, tip_get_tsscaler,
}
use tipcie.History.{
  tip_set_user_sync_reset_receive, tip_get_last_sync_codes, tip_get_sync_history_buffer_status,
  tip_reset_sync_history, tip_user_sync_reset, tip_print_sync_history,
}
use tipcie.SyncEvents.{
  tip_set_sync_event_interval, tip_get_sync_event_interval, tip_force_sync_event,
  tip_sync_reset_request, tip_get_sync_reset_request, tip_enable_sync_reset_request,
  tip_sync_reset_request_status,
}
use tipcie.Delays.{tip_set_tsinput_delay, tip_get_tsinput_delay}
use tipcie.Slave.{
  tip_set_slave_port, tip_get_connected_fiber_mask, tip_get_trig_src_enabled_fiber_mask,
  tip_get_fiber_latency_measurement, tip_reset_mgtreceiver, tip_reset_block_readout,
}
use tipcie.Interrupt.{
  tip_int_connect, tip_int_disconnect, tip_ack_connect, tip_do_library_polling_thread,
  tip_get_int_count, tip_get_ack_count, tip_int_enable, tip_int_disable, Routines, tip_int_ack,
  poll_turns,
}
use tipcie.Readout.{
  tip_fake_trigger_bank_on_error, tip_read_block, tip_generate_trigger_bank, tip_read_trigger_block,
}

pub data Call : Type 0 where
  get_next_block_level : Call
  get_current_block_level : Call
  broadcast_next_block_level : ℤ → Call
  set_block_level : ℤ → Call
  set_instant_block_level_change : ℤ → Call
  get_instant_block_level_change : Call
  set_block_buffer_level : ℕ → Call
  get_broadcast_block_buffer_level : Call
  busy_on_buffer_level : ℤ → Call
  use_broadcast_buffer_level : ℤ → Call
  set_block_limit : ℕ → Call
  get_block_limit : Call
  get_block_limit_status : Call
  bready : Call
  get_sync_event_flag : Call
  get_sync_event_received : Call
  get_readout_events : Call
  set_fiber_latency_offset_pre_init : ℤ → Call
  set_crate_id_pre_init : ℤ → Call
  set_crate_id : ℕ → Call
  get_crate_id : ℤ → Call
  get_port_trig_src_enabled : ℤ → Call
  get_slave_blocklevel : ℤ → Call
  reset : Call
  clock_resync : Call
  set_trigger_source : ℤ → Call
  set_trigger_source_mask : ℤ → Call
  enable_trigger_source : Call
  fill_to_end_block : Call
  disable_trigger_source : ℤ → Call
  trigger_ready_reset : Call
  force_send_trigger_source_enable : Call
  soft_trig : ℤ → ℕ → ℕ → ℤ → Call
  set_random_trigger : ℤ → ℤ → Call
  disable_random_trigger : Call
  set_prescale : ℤ → Call
  set_prompt_trigger_width : ℤ → Call
  get_prescale : Call
  get_prompt_trigger_width : Call
  set_input_prescale : ℤ → ℤ → Call
  get_input_prescale : ℤ → Call
  set_trigger_pulse : ℤ → ℤ → ℤ → ℤ → Call
  set_sync_source : ℕ → Call
  set_sync_delay_width : ℕ → ℕ → ℤ → Call
  trig_link_reset : Call
  set_sync_reset_type : ℤ → Call
  sync_reset_resync : Call
  reset_event_counter : Call
  sync_reset : ℤ → Call
  clock_reset : Call
  get_event_counter : Call
  enable_ts_input : ℕ → Call
  set_output_port : ℕ → ℕ → ℕ → ℕ → Call
  disable_ts_input : ℕ → Call
  set_event_format : ℤ → Call
  set_fp_input_readout : ℤ → Call
  set_fiber_delay : ℕ → ℕ → Call
  enable_fiber : ℕ → Call
  disable_fiber : ℕ → Call
  set_busy_source : ℕ → ℤ → Call
  set_trigger_lock : ℤ → Call
  get_trigger_lock : Call
  reset_slave_config : Call
  add_slave : ℕ → Call
  set_clock_source : ℕ → Call
  get_clock_source : Call
  open_card : Os → Call
  reset_mgt : Call
  get_firmware_version : Call
  enable_fifo : Call
  dma_config : ℤ → ℤ → ℤ → Call
  dma_set_addr : ℕ → ℕ → Call
  set_trigger_holdoff : ℤ → ℕ → ℤ → Call
  get_trigger_holdoff : ℤ → Call
  set_trigger_holdoff_min : ℤ → ℕ → Call
  get_trigger_holdoff_min : ℤ → ℤ → Call
  trigger_table_config : Option (ℕ → ℕ) → Call
  get_trigger_table : Option (ℕ → ℕ) → Call
  trigger_table_predefined_config : ℤ → Call
  define_event_type : ℤ → ℤ → ℤ → Call
  define_pulser_event_type : ℤ → ℤ → Call
  load_trigger_table : ℤ → Call
  set_trigger_window : ℤ → Call
  get_trigger_window : Call
  set_trigger_inhibit_window : ℤ → Call
  get_trigger_inhibit_window : Call
  set_trig21_delay : ℤ → Call
  get_trig21_delay : Call
  set_trigger_latch_on_level : ℤ → Call
  get_trigger_latch_on_level : Call
  latch_timers : Call
  get_live_time : Call
  get_busy_time : Call
  live : (ℕ → ℕ → ℤ) → ℤ → Call
  get_tsscaler : ℤ → ℤ → Call
  set_user_sync_reset_receive : ℤ → Call
  get_last_sync_codes : ℤ → Call
  get_sync_history_buffer_status : ℤ → Call
  reset_sync_history : Call
  user_sync_reset : ℤ → Call
  print_sync_history : Call
  set_sync_event_interval : ℤ → Call
  get_sync_event_interval : Call
  force_sync_event : Call
  sync_reset_request : Call
  get_sync_reset_request : Call
  enable_sync_reset_request : ℕ → ℤ → Call
  sync_reset_request_status : ℤ → Call
  set_tsinput_delay : ℤ → ℤ → Call
  get_tsinput_delay : ℤ → Call
  set_slave_port : ℤ → Call
  get_connected_fiber_mask : Call
  get_trig_src_enabled_fiber_mask : Call
  get_fiber_latency_measurement : Call
  reset_mgtreceiver : Call
  reset_block_readout : Call
  int_connect : ℕ → Bool → ℕ → Call
  int_disconnect : Call
  ack_connect : Bool → ℕ → Call
  do_library_polling_thread : ℤ → Call
  get_int_count : Call
  get_ack_count : Call
  int_enable : ℤ → Call
  int_disable : Call
  fake_trigger_bank_on_error : ℤ → Call
  read_block : Option Buffer → ℤ → ℤ → Call
  generate_trigger_bank : Buffer → Call
  read_trigger_block : Option Buffer → Call
  int_ack : Call
  poll : ℕ → Call

module _ (dev : Device) (user : Routines) where
  unfoldable pub run : Call → M (Unit {0})
  run get_next_block_level = tip_get_next_block_level dev >> pure tt
  run get_current_block_level = tip_get_current_block_level dev >> pure tt
  run (broadcast_next_block_level a) = tip_broadcast_next_block_level dev a >> pure tt
  run (set_block_level a) = tip_set_block_level dev a >> pure tt
  run (set_instant_block_level_change a) = tip_set_instant_block_level_change dev a >> pure tt
  run get_instant_block_level_change = tip_get_instant_block_level_change dev >> pure tt
  run (set_block_buffer_level a) = tip_set_block_buffer_level dev a >> pure tt
  run get_broadcast_block_buffer_level = tip_get_broadcast_block_buffer_level dev >> pure tt
  run (busy_on_buffer_level a) = tip_busy_on_buffer_level dev a >> pure tt
  run (use_broadcast_buffer_level a) = tip_use_broadcast_buffer_level dev a >> pure tt
  run (set_block_limit a) = tip_set_block_limit dev a >> pure tt
  run get_block_limit = tip_get_block_limit dev >> pure tt
  run get_block_limit_status = tip_get_block_limit_status dev >> pure tt
  run bready = tip_bready dev >> pure tt
  run get_sync_event_flag = tip_get_sync_event_flag >> pure tt
  run get_sync_event_received = tip_get_sync_event_received >> pure tt
  run get_readout_events = tip_get_readout_events >> pure tt
  run (set_fiber_latency_offset_pre_init a) = tip_set_fiber_latency_offset_pre_init a >> pure tt
  run (set_crate_id_pre_init a) = tip_set_crate_id_pre_init a >> pure tt
  run (set_crate_id a) = tip_set_crate_id dev a >> pure tt
  run (get_crate_id a) = tip_get_crate_id dev a >> pure tt
  run (get_port_trig_src_enabled a) = tip_get_port_trig_src_enabled dev a >> pure tt
  run (get_slave_blocklevel a) = tip_get_slave_blocklevel dev a >> pure tt
  run reset = tip_reset dev >> pure tt
  run clock_resync = tip_clock_resync dev >> pure tt
  run (set_trigger_source a) = tip_set_trigger_source a >> pure tt
  run (set_trigger_source_mask a) = tip_set_trigger_source_mask a >> pure tt
  run enable_trigger_source = tip_enable_trigger_source >> pure tt
  run fill_to_end_block = tip_fill_to_end_block >> pure tt
  run (disable_trigger_source a) = tip_disable_trigger_source a >> pure tt
  run trigger_ready_reset = tip_trigger_ready_reset >> pure tt
  run force_send_trigger_source_enable = tip_force_send_trigger_source_enable dev >> pure tt
  run (soft_trig a b c d) = tip_soft_trig a b c d >> pure tt
  run (set_random_trigger a b) = tip_set_random_trigger a b >> pure tt
  run disable_random_trigger = tip_disable_random_trigger >> pure tt
  run (set_prescale a) = tip_set_prescale a >> pure tt
  run (set_prompt_trigger_width a) = tip_set_prompt_trigger_width a >> pure tt
  run get_prescale = tip_get_prescale dev >> pure tt
  run get_prompt_trigger_width = tip_get_prompt_trigger_width dev >> pure tt
  run (set_input_prescale a b) = tip_set_input_prescale dev a b >> pure tt
  run (get_input_prescale a) = tip_get_input_prescale dev a >> pure tt
  run (set_trigger_pulse a b c d) = tip_set_trigger_pulse dev a b c d >> pure tt
  run (set_sync_source a) = tip_set_sync_source a >> pure tt
  run (set_sync_delay_width a b c) = tip_set_sync_delay_width a b c >> pure tt
  run trig_link_reset = tip_trig_link_reset >> pure tt
  run (set_sync_reset_type a) = tip_set_sync_reset_type a >> pure tt
  run sync_reset_resync = tip_sync_reset_resync >> pure tt
  run reset_event_counter = tip_reset_event_counter >> pure tt
  run (sync_reset a) = tip_sync_reset dev a >> pure tt
  run clock_reset = tip_clock_reset dev >> pure tt
  run get_event_counter = tip_get_event_counter dev >> pure tt
  run (enable_ts_input a) = tip_enable_ts_input a >> pure tt
  run (set_output_port a b c d) = tip_set_output_port a b c d >> pure tt
  run (disable_ts_input a) = tip_disable_ts_input dev a >> pure tt
  run (set_event_format a) = tip_set_event_format dev a >> pure tt
  run (set_fp_input_readout a) = tip_set_fp_input_readout dev a >> pure tt
  run (set_fiber_delay a b) = tip_set_fiber_delay a b >> pure tt
  run (enable_fiber a) = tip_enable_fiber dev a >> pure tt
  run (disable_fiber a) = tip_disable_fiber dev a >> pure tt
  run (set_busy_source a b) = tip_set_busy_source dev a b >> pure tt
  run (set_trigger_lock a) = tip_set_trigger_lock dev a >> pure tt
  run get_trigger_lock = tip_get_trigger_lock dev >> pure tt
  run reset_slave_config = tip_reset_slave_config dev >> pure tt
  run (add_slave a) = tip_add_slave dev a >> pure tt
  run (set_clock_source a) = tip_set_clock_source dev a >> pure tt
  run get_clock_source = tip_get_clock_source dev >> pure tt
  run (open_card a) = tip_open a >> pure tt
  run reset_mgt = tip_reset_mgt >> pure tt
  run get_firmware_version = tip_get_firmware_version dev >> pure tt
  run enable_fifo = tip_enable_fifo dev >> pure tt
  run (dma_config a b c) = tip_dma_config dev a b c >> pure tt
  run (dma_set_addr a b) = tip_dma_set_addr dev a b >> pure tt
  run (set_trigger_holdoff a b c) = tip_set_trigger_holdoff dev a b c >> pure tt
  run (get_trigger_holdoff a) = tip_get_trigger_holdoff dev a >> pure tt
  run (set_trigger_holdoff_min a b) = tip_set_trigger_holdoff_min dev a b >> pure tt
  run (get_trigger_holdoff_min a b) = tip_get_trigger_holdoff_min dev a b >> pure tt
  run (trigger_table_config a) = tip_trigger_table_config a >> pure tt
  run (get_trigger_table a) = tip_get_trigger_table a >> pure tt
  run (trigger_table_predefined_config a) = tip_trigger_table_predefined_config a >> pure tt
  run (define_event_type a b c) = tip_define_event_type a b c >> pure tt
  run (define_pulser_event_type a b) = tip_define_pulser_event_type a b >> pure tt
  run (load_trigger_table a) = tip_load_trigger_table a >> pure tt
  run (set_trigger_window a) = tip_set_trigger_window dev a >> pure tt
  run get_trigger_window = tip_get_trigger_window dev >> pure tt
  run (set_trigger_inhibit_window a) = tip_set_trigger_inhibit_window dev a >> pure tt
  run get_trigger_inhibit_window = tip_get_trigger_inhibit_window dev >> pure tt
  run (set_trig21_delay a) = tip_set_trig21_delay dev a >> pure tt
  run get_trig21_delay = tip_get_trig21_delay dev >> pure tt
  run (set_trigger_latch_on_level a) = tip_set_trigger_latch_on_level dev a >> pure tt
  run get_trigger_latch_on_level = tip_get_trigger_latch_on_level dev >> pure tt
  run latch_timers = tip_latch_timers >> pure tt
  run get_live_time = tip_get_live_time dev >> pure tt
  run get_busy_time = tip_get_busy_time dev >> pure tt
  run (live a b) = tip_live dev a b >> pure tt
  run (get_tsscaler a b) = tip_get_tsscaler dev a b >> pure tt
  run (set_user_sync_reset_receive a) = tip_set_user_sync_reset_receive dev a >> pure tt
  run (get_last_sync_codes a) = tip_get_last_sync_codes dev a >> pure tt
  run (get_sync_history_buffer_status a) = tip_get_sync_history_buffer_status dev a >> pure tt
  run reset_sync_history = tip_reset_sync_history >> pure tt
  run (user_sync_reset a) = tip_user_sync_reset a >> pure tt
  run print_sync_history = tip_print_sync_history dev >> pure tt
  run (set_sync_event_interval a) = tip_set_sync_event_interval a >> pure tt
  run get_sync_event_interval = tip_get_sync_event_interval dev >> pure tt
  run force_sync_event = tip_force_sync_event >> pure tt
  run sync_reset_request = tip_sync_reset_request >> pure tt
  run get_sync_reset_request = tip_get_sync_reset_request dev >> pure tt
  run (enable_sync_reset_request a b) = tip_enable_sync_reset_request dev a b >> pure tt
  run (sync_reset_request_status a) = tip_sync_reset_request_status dev a >> pure tt
  run (set_tsinput_delay a b) = tip_set_tsinput_delay dev a b >> pure tt
  run (get_tsinput_delay a) = tip_get_tsinput_delay dev a >> pure tt
  run (set_slave_port a) = tip_set_slave_port dev a >> pure tt
  run get_connected_fiber_mask = tip_get_connected_fiber_mask dev >> pure tt
  run get_trig_src_enabled_fiber_mask = tip_get_trig_src_enabled_fiber_mask dev >> pure tt
  run get_fiber_latency_measurement = tip_get_fiber_latency_measurement >> pure tt
  run reset_mgtreceiver = tip_reset_mgtreceiver >> pure tt
  run reset_block_readout = tip_reset_block_readout >> pure tt
  run (int_connect a b c) = tip_int_connect a b c >> pure tt
  run int_disconnect = tip_int_disconnect >> pure tt
  run (ack_connect a b) = tip_ack_connect a b >> pure tt
  run (do_library_polling_thread a) = tip_do_library_polling_thread a >> pure tt
  run get_int_count = tip_get_int_count >> pure tt
  run get_ack_count = tip_get_ack_count >> pure tt
  run (int_enable a) = tip_int_enable a >> pure tt
  run int_disable = tip_int_disable dev >> pure tt
  run (fake_trigger_bank_on_error a) = tip_fake_trigger_bank_on_error a >> pure tt
  run (read_block a b c) = tip_read_block dev a b c >> pure tt
  run (generate_trigger_bank a) = tip_generate_trigger_bank dev a >> pure tt
  run (read_trigger_block a) = tip_read_trigger_block dev a >> pure tt
  run int_ack = tip_int_ack user >> pure tt
  run (poll n) = poll_turns dev user n >> pure tt

  unfoldable pub run_all : List Call → M (Unit {0})
  unfolding run
  run_all [] = pure tt
  run_all (c ∷ cs) = run c >> run_all cs
