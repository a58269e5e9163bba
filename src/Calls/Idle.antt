-- ===== src/Calls/Idle.antt =====
-- No program of library calls waits for itself on the mutex, or touches the card without it.
use tipcie.Prelude.{List, [], ◌∷◌}
use tipcie.Machine.{Device}
use tipcie.Machine.Lock.{KeepsIdle}
use tipcie.Calls.{Call, run, run_all}
use tipcie.Interrupt.{Routines}
use tipcie.Interrupt.Polling.{AreSafe, tip_int_ack-KeepsIdle, poll_turns-KeepsIdle}
use tipcie.Block.Idle.{
  tip_get_next_block_level-KeepsIdle, tip_get_current_block_level-KeepsIdle,
  tip_broadcast_next_block_level-KeepsIdle, tip_set_block_level-KeepsIdle,
  tip_set_instant_block_level_change-KeepsIdle, tip_get_instant_block_level_change-KeepsIdle,
}
use tipcie.Buffer.Idle.{
  tip_set_block_buffer_level-KeepsIdle, tip_get_broadcast_block_buffer_level-KeepsIdle,
  tip_busy_on_buffer_level-KeepsIdle, tip_use_broadcast_buffer_level-KeepsIdle,
  tip_set_block_limit-KeepsIdle, tip_get_block_limit-KeepsIdle,
  tip_get_block_limit_status-KeepsIdle, tip_bready-KeepsIdle, tip_get_sync_event_flag-KeepsIdle,
  tip_get_sync_event_received-KeepsIdle, tip_get_readout_events-KeepsIdle,
}
use tipcie.Crate.Idle.{
  tip_set_fiber_latency_offset_pre_init-KeepsIdle, tip_set_crate_id_pre_init-KeepsIdle,
  tip_set_crate_id-KeepsIdle, tip_get_crate_id-KeepsIdle, tip_get_port_trig_src_enabled-KeepsIdle,
  tip_get_slave_blocklevel-KeepsIdle, tip_reset-KeepsIdle, tip_clock_resync-KeepsIdle,
}
use tipcie.Trigger.Idle.{
  tip_set_trigger_source-KeepsIdle, tip_set_trigger_source_mask-KeepsIdle,
  tip_enable_trigger_source-KeepsIdle, tip_fill_to_end_block-KeepsIdle,
  tip_disable_trigger_source-KeepsIdle, tip_trigger_ready_reset-KeepsIdle,
  tip_force_send_trigger_source_enable-KeepsIdle,
}
use tipcie.Pulser.Idle.{
  tip_soft_trig-KeepsIdle, tip_set_random_trigger-KeepsIdle, tip_disable_random_trigger-KeepsIdle,
  tip_set_prescale-KeepsIdle, tip_set_prompt_trigger_width-KeepsIdle, tip_get_prescale-KeepsIdle,
  tip_get_prompt_trigger_width-KeepsIdle, tip_set_input_prescale-KeepsIdle,
  tip_get_input_prescale-KeepsIdle, tip_set_trigger_pulse-KeepsIdle,
}
use tipcie.Sync.Idle.{
  tip_set_sync_source-KeepsIdle, tip_set_sync_delay_width-KeepsIdle, tip_trig_link_reset-KeepsIdle,
  tip_set_sync_reset_type-KeepsIdle, tip_sync_reset_resync-KeepsIdle,
  tip_reset_event_counter-KeepsIdle, tip_sync_reset-KeepsIdle, tip_clock_reset-KeepsIdle,
  tip_get_event_counter-KeepsIdle,
}
use tipcie.Inputs.Idle.{
  tip_enable_ts_input-KeepsIdle, tip_set_output_port-KeepsIdle, tip_disable_ts_input-KeepsIdle,
  tip_set_event_format-KeepsIdle, tip_set_fp_input_readout-KeepsIdle,
}
use tipcie.Fiber.Idle.{
  tip_set_fiber_delay-KeepsIdle, tip_enable_fiber-KeepsIdle, tip_disable_fiber-KeepsIdle,
  tip_set_busy_source-KeepsIdle, tip_set_trigger_lock-KeepsIdle, tip_get_trigger_lock-KeepsIdle,
  tip_reset_slave_config-KeepsIdle, tip_add_slave-KeepsIdle, tip_set_clock_source-KeepsIdle,
  tip_get_clock_source-KeepsIdle,
}
use tipcie.Setup.Idle.{
  tip_open-KeepsIdle, tip_reset_mgt-KeepsIdle, tip_get_firmware_version-KeepsIdle,
  tip_enable_fifo-KeepsIdle, tip_dma_config-KeepsIdle, tip_dma_set_addr-KeepsIdle,
}
use tipcie.Holdoff.Idle.{
  tip_set_trigger_holdoff-KeepsIdle, tip_get_trigger_holdoff-KeepsIdle,
  tip_set_trigger_holdoff_min-KeepsIdle, tip_get_trigger_holdoff_min-KeepsIdle,
}
use tipcie.Table.Idle.{
  tip_trigger_table_config-KeepsIdle, tip_get_trigger_table-KeepsIdle,
  tip_trigger_table_predefined_config-KeepsIdle, tip_define_event_type-KeepsIdle,
  tip_define_pulser_event_type-KeepsIdle, tip_load_trigger_table-KeepsIdle,
}
use tipcie.Window.Idle.{
  tip_set_trigger_window-KeepsIdle, tip_get_trigger_window-KeepsIdle,
  tip_set_trigger_inhibit_window-KeepsIdle, tip_get_trigger_inhibit_window-KeepsIdle,
  tip_set_trig21_delay-KeepsIdle, tip_get_trig21_delay-KeepsIdle,
  tip_set_trigger_latch_on_level-KeepsIdle, tip_get_trigger_latch_on_level-KeepsIdle,
}
use tipcie.Scalers.Idle.{
  tip_latch_timers-KeepsIdle, tip_get_live_time-KeepsIdle, tip_get_busy_time-KeepsIdle,
  tip_live-KeepsIdle, tip_get_tsscaler-KeepsIdle,
}
use tipcie.History.Idle.{
  tip_set_user_sync_reset_receive-KeepsIdle, tip_get_last_sync_codes-KeepsIdle,
  tip_get_sync_history_buffer_status-KeepsIdle, tip_reset_sync_history-KeepsIdle,
  tip_user_sync_reset-KeepsIdle, tip_print_sync_history-KeepsIdle,
}
use tipcie.SyncEvents.Idle.{
  tip_set_sync_event_interval-KeepsIdle, tip_get_sync_event_interval-KeepsIdle,
  tip_force_sync_event-KeepsIdle, tip_sync_reset_request-KeepsIdle,
  tip_get_sync_reset_request-KeepsIdle, tip_enable_sync_reset_request-KeepsIdle,
  tip_sync_reset_request_status-KeepsIdle,
}
use tipcie.Delays.Idle.{tip_set_tsinput_delay-KeepsIdle, tip_get_tsinput_delay-KeepsIdle}
use tipcie.Slave.Idle.{
  tip_set_slave_port-KeepsIdle, tip_get_connected_fiber_mask-KeepsIdle,
  tip_get_trig_src_enabled_fiber_mask-KeepsIdle, tip_get_fiber_latency_measurement-KeepsIdle,
  tip_reset_mgtreceiver-KeepsIdle, tip_reset_block_readout-KeepsIdle,
}
use tipcie.Interrupt.Idle.{
  tip_int_connect-KeepsIdle, tip_int_disconnect-KeepsIdle, tip_ack_connect-KeepsIdle,
  tip_do_library_polling_thread-KeepsIdle, tip_get_int_count-KeepsIdle, tip_get_ack_count-KeepsIdle,
  tip_int_enable-KeepsIdle, tip_int_disable-KeepsIdle,
}
use tipcie.Readout.Idle.{
  tip_fake_trigger_bank_on_error-KeepsIdle, tip_read_block-KeepsIdle,
  tip_generate_trigger_bank-KeepsIdle, tip_read_trigger_block-KeepsIdle,
}

module _ (dev : Device) (user : Routines) (safe : AreSafe user) where
  pub run-KeepsIdle : (c : Call) → KeepsIdle (run dev user c)
  unfolding run
  run-KeepsIdle Call.get_next_block_level = tip_get_next_block_level-KeepsIdle dev
  run-KeepsIdle Call.get_current_block_level = tip_get_current_block_level-KeepsIdle dev
  run-KeepsIdle (Call.broadcast_next_block_level a) = tip_broadcast_next_block_level-KeepsIdle dev a
  run-KeepsIdle (Call.set_block_level a) = tip_set_block_level-KeepsIdle dev a
  run-KeepsIdle (Call.set_instant_block_level_change a) =
      tip_set_instant_block_level_change-KeepsIdle dev a
  run-KeepsIdle Call.get_instant_block_level_change =
      tip_get_instant_block_level_change-KeepsIdle dev
  run-KeepsIdle (Call.set_block_buffer_level a) = tip_set_block_buffer_level-KeepsIdle dev a
  run-KeepsIdle Call.get_broadcast_block_buffer_level =
      tip_get_broadcast_block_buffer_level-KeepsIdle dev
  run-KeepsIdle (Call.busy_on_buffer_level a) = tip_busy_on_buffer_level-KeepsIdle dev a
  run-KeepsIdle (Call.use_broadcast_buffer_level a) = tip_use_broadcast_buffer_level-KeepsIdle dev a
  run-KeepsIdle (Call.set_block_limit a) = tip_set_block_limit-KeepsIdle dev a
  run-KeepsIdle Call.get_block_limit = tip_get_block_limit-KeepsIdle dev
  run-KeepsIdle Call.get_block_limit_status = tip_get_block_limit_status-KeepsIdle dev
  run-KeepsIdle Call.bready = tip_bready-KeepsIdle dev
  run-KeepsIdle Call.get_sync_event_flag = tip_get_sync_event_flag-KeepsIdle dev
  run-KeepsIdle Call.get_sync_event_received = tip_get_sync_event_received-KeepsIdle dev
  run-KeepsIdle Call.get_readout_events = tip_get_readout_events-KeepsIdle dev
  run-KeepsIdle (Call.set_fiber_latency_offset_pre_init a) =
      tip_set_fiber_latency_offset_pre_init-KeepsIdle dev a
  run-KeepsIdle (Call.set_crate_id_pre_init a) = tip_set_crate_id_pre_init-KeepsIdle dev a
  run-KeepsIdle (Call.set_crate_id a) = tip_set_crate_id-KeepsIdle dev a
  run-KeepsIdle (Call.get_crate_id a) = tip_get_crate_id-KeepsIdle dev a
  run-KeepsIdle (Call.get_port_trig_src_enabled a) = tip_get_port_trig_src_enabled-KeepsIdle dev a
  run-KeepsIdle (Call.get_slave_blocklevel a) = tip_get_slave_blocklevel-KeepsIdle dev a
  run-KeepsIdle Call.reset = tip_reset-KeepsIdle dev
  run-KeepsIdle Call.clock_resync = tip_clock_resync-KeepsIdle dev
  run-KeepsIdle (Call.set_trigger_source a) = tip_set_trigger_source-KeepsIdle dev a
  run-KeepsIdle (Call.set_trigger_source_mask a) = tip_set_trigger_source_mask-KeepsIdle dev a
  run-KeepsIdle Call.enable_trigger_source = tip_enable_trigger_source-KeepsIdle dev
  run-KeepsIdle Call.fill_to_end_block = tip_fill_to_end_block-KeepsIdle dev
  run-KeepsIdle (Call.disable_trigger_source a) = tip_disable_trigger_source-KeepsIdle dev a
  run-KeepsIdle Call.trigger_ready_reset = tip_trigger_ready_reset-KeepsIdle dev
  run-KeepsIdle Call.force_send_trigger_source_enable =
      tip_force_send_trigger_source_enable-KeepsIdle dev
  run-KeepsIdle (Call.soft_trig a b c d) = tip_soft_trig-KeepsIdle dev a b c d
  run-KeepsIdle (Call.set_random_trigger a b) = tip_set_random_trigger-KeepsIdle dev a b
  run-KeepsIdle Call.disable_random_trigger = tip_disable_random_trigger-KeepsIdle dev
  run-KeepsIdle (Call.set_prescale a) = tip_set_prescale-KeepsIdle dev a
  run-KeepsIdle (Call.set_prompt_trigger_width a) = tip_set_prompt_trigger_width-KeepsIdle dev a
  run-KeepsIdle Call.get_prescale = tip_get_prescale-KeepsIdle dev
  run-KeepsIdle Call.get_prompt_trigger_width = tip_get_prompt_trigger_width-KeepsIdle dev
  run-KeepsIdle (Call.set_input_prescale a b) = tip_set_input_prescale-KeepsIdle dev a b
  run-KeepsIdle (Call.get_input_prescale a) = tip_get_input_prescale-KeepsIdle dev a
  run-KeepsIdle (Call.set_trigger_pulse a b c d) = tip_set_trigger_pulse-KeepsIdle dev a b c d
  run-KeepsIdle (Call.set_sync_source a) = tip_set_sync_source-KeepsIdle dev a
  run-KeepsIdle (Call.set_sync_delay_width a b c) = tip_set_sync_delay_width-KeepsIdle dev a b c
  run-KeepsIdle Call.trig_link_reset = tip_trig_link_reset-KeepsIdle dev
  run-KeepsIdle (Call.set_sync_reset_type a) = tip_set_sync_reset_type-KeepsIdle dev a
  run-KeepsIdle Call.sync_reset_resync = tip_sync_reset_resync-KeepsIdle dev
  run-KeepsIdle Call.reset_event_counter = tip_reset_event_counter-KeepsIdle dev
  run-KeepsIdle (Call.sync_reset a) = tip_sync_reset-KeepsIdle dev a
  run-KeepsIdle Call.clock_reset = tip_clock_reset-KeepsIdle dev
  run-KeepsIdle Call.get_event_counter = tip_get_event_counter-KeepsIdle dev
  run-KeepsIdle (Call.enable_ts_input a) = tip_enable_ts_input-KeepsIdle dev a
  run-KeepsIdle (Call.set_output_port a b c d) = tip_set_output_port-KeepsIdle dev a b c d
  run-KeepsIdle (Call.disable_ts_input a) = tip_disable_ts_input-KeepsIdle dev a
  run-KeepsIdle (Call.set_event_format a) = tip_set_event_format-KeepsIdle dev a
  run-KeepsIdle (Call.set_fp_input_readout a) = tip_set_fp_input_readout-KeepsIdle dev a
  run-KeepsIdle (Call.set_fiber_delay a b) = tip_set_fiber_delay-KeepsIdle dev a b
  run-KeepsIdle (Call.enable_fiber a) = tip_enable_fiber-KeepsIdle dev a
  run-KeepsIdle (Call.disable_fiber a) = tip_disable_fiber-KeepsIdle dev a
  run-KeepsIdle (Call.set_busy_source a b) = tip_set_busy_source-KeepsIdle dev a b
  run-KeepsIdle (Call.set_trigger_lock a) = tip_set_trigger_lock-KeepsIdle dev a
  run-KeepsIdle Call.get_trigger_lock = tip_get_trigger_lock-KeepsIdle dev
  run-KeepsIdle Call.reset_slave_config = tip_reset_slave_config-KeepsIdle dev
  run-KeepsIdle (Call.add_slave a) = tip_add_slave-KeepsIdle dev a
  run-KeepsIdle (Call.set_clock_source a) = tip_set_clock_source-KeepsIdle dev a
  run-KeepsIdle Call.get_clock_source = tip_get_clock_source-KeepsIdle dev
  run-KeepsIdle (Call.open_card a) = tip_open-KeepsIdle dev a
  run-KeepsIdle Call.reset_mgt = tip_reset_mgt-KeepsIdle dev
  run-KeepsIdle Call.get_firmware_version = tip_get_firmware_version-KeepsIdle dev
  run-KeepsIdle Call.enable_fifo = tip_enable_fifo-KeepsIdle dev
  run-KeepsIdle (Call.dma_config a b c) = tip_dma_config-KeepsIdle dev a b c
  run-KeepsIdle (Call.dma_set_addr a b) = tip_dma_set_addr-KeepsIdle dev a b
  run-KeepsIdle (Call.set_trigger_holdoff a b c) = tip_set_trigger_holdoff-KeepsIdle dev a b c
  run-KeepsIdle (Call.get_trigger_holdoff a) = tip_get_trigger_holdoff-KeepsIdle dev a
  run-KeepsIdle (Call.set_trigger_holdoff_min a b) = tip_set_trigger_holdoff_min-KeepsIdle dev a b
  run-KeepsIdle (Call.get_trigger_holdoff_min a b) = tip_get_trigger_holdoff_min-KeepsIdle dev a b
  run-KeepsIdle (Call.trigger_table_config a) = tip_trigger_table_config-KeepsIdle a
  run-KeepsIdle (Call.get_trigger_table a) = tip_get_trigger_table-KeepsIdle a
  run-KeepsIdle (Call.trigger_table_predefined_config a) =
      tip_trigger_table_predefined_config-KeepsIdle a
  run-KeepsIdle (Call.define_event_type a b c) = tip_define_event_type-KeepsIdle a b c
  run-KeepsIdle (Call.define_pulser_event_type a b) = tip_define_pulser_event_type-KeepsIdle a b
  run-KeepsIdle (Call.load_trigger_table a) = tip_load_trigger_table-KeepsIdle a
  run-KeepsIdle (Call.set_trigger_window a) = tip_set_trigger_window-KeepsIdle dev a
  run-KeepsIdle Call.get_trigger_window = tip_get_trigger_window-KeepsIdle dev
  run-KeepsIdle (Call.set_trigger_inhibit_window a) = tip_set_trigger_inhibit_window-KeepsIdle dev a
  run-KeepsIdle Call.get_trigger_inhibit_window = tip_get_trigger_inhibit_window-KeepsIdle dev
  run-KeepsIdle (Call.set_trig21_delay a) = tip_set_trig21_delay-KeepsIdle dev a
  run-KeepsIdle Call.get_trig21_delay = tip_get_trig21_delay-KeepsIdle dev
  run-KeepsIdle (Call.set_trigger_latch_on_level a) = tip_set_trigger_latch_on_level-KeepsIdle dev a
  run-KeepsIdle Call.get_trigger_latch_on_level = tip_get_trigger_latch_on_level-KeepsIdle dev
  run-KeepsIdle Call.latch_timers = tip_latch_timers-KeepsIdle dev
  run-KeepsIdle Call.get_live_time = tip_get_live_time-KeepsIdle dev
  run-KeepsIdle Call.get_busy_time = tip_get_busy_time-KeepsIdle dev
  run-KeepsIdle (Call.live a b) = tip_live-KeepsIdle dev a b
  run-KeepsIdle (Call.get_tsscaler a b) = tip_get_tsscaler-KeepsIdle dev a b
  run-KeepsIdle (Call.set_user_sync_reset_receive a) =
      tip_set_user_sync_reset_receive-KeepsIdle dev a
  run-KeepsIdle (Call.get_last_sync_codes a) = tip_get_last_sync_codes-KeepsIdle dev a
  run-KeepsIdle (Call.get_sync_history_buffer_status a) =
      tip_get_sync_history_buffer_status-KeepsIdle dev a
  run-KeepsIdle Call.reset_sync_history = tip_reset_sync_history-KeepsIdle dev
  run-KeepsIdle (Call.user_sync_reset a) = tip_user_sync_reset-KeepsIdle dev a
  run-KeepsIdle Call.print_sync_history = tip_print_sync_history-KeepsIdle dev
  run-KeepsIdle (Call.set_sync_event_interval a) = tip_set_sync_event_interval-KeepsIdle dev a
  run-KeepsIdle Call.get_sync_event_interval = tip_get_sync_event_interval-KeepsIdle dev
  run-KeepsIdle Call.force_sync_event = tip_force_sync_event-KeepsIdle dev
  run-KeepsIdle Call.sync_reset_request = tip_sync_reset_request-KeepsIdle dev
  run-KeepsIdle Call.get_sync_reset_request = tip_get_sync_reset_request-KeepsIdle dev
  run-KeepsIdle (Call.enable_sync_reset_request a b) =
      tip_enable_sync_reset_request-KeepsIdle dev a b
  run-KeepsIdle (Call.sync_reset_request_status a) = tip_sync_reset_request_status-KeepsIdle dev a
  run-KeepsIdle (Call.set_tsinput_delay a b) = tip_set_tsinput_delay-KeepsIdle dev a b
  run-KeepsIdle (Call.get_tsinput_delay a) = tip_get_tsinput_delay-KeepsIdle dev a
  run-KeepsIdle (Call.set_slave_port a) = tip_set_slave_port-KeepsIdle dev a
  run-KeepsIdle Call.get_connected_fiber_mask = tip_get_connected_fiber_mask-KeepsIdle dev
  run-KeepsIdle Call.get_trig_src_enabled_fiber_mask =
      tip_get_trig_src_enabled_fiber_mask-KeepsIdle dev
  run-KeepsIdle Call.get_fiber_latency_measurement = tip_get_fiber_latency_measurement-KeepsIdle dev
  run-KeepsIdle Call.reset_mgtreceiver = tip_reset_mgtreceiver-KeepsIdle dev
  run-KeepsIdle Call.reset_block_readout = tip_reset_block_readout-KeepsIdle dev
  run-KeepsIdle (Call.int_connect a b c) = tip_int_connect-KeepsIdle dev a b c
  run-KeepsIdle Call.int_disconnect = tip_int_disconnect-KeepsIdle dev
  run-KeepsIdle (Call.ack_connect a b) = tip_ack_connect-KeepsIdle dev a b
  run-KeepsIdle (Call.do_library_polling_thread a) = tip_do_library_polling_thread-KeepsIdle dev a
  run-KeepsIdle Call.get_int_count = tip_get_int_count-KeepsIdle dev
  run-KeepsIdle Call.get_ack_count = tip_get_ack_count-KeepsIdle dev
  run-KeepsIdle (Call.int_enable a) = tip_int_enable-KeepsIdle dev a
  run-KeepsIdle Call.int_disable = tip_int_disable-KeepsIdle dev
  run-KeepsIdle (Call.fake_trigger_bank_on_error a) = tip_fake_trigger_bank_on_error-KeepsIdle a
  run-KeepsIdle (Call.read_block a b c) = tip_read_block-KeepsIdle dev a b c
  run-KeepsIdle (Call.generate_trigger_bank a) = tip_generate_trigger_bank-KeepsIdle dev a
  run-KeepsIdle (Call.read_trigger_block a) = tip_read_trigger_block-KeepsIdle dev a
  run-KeepsIdle Call.int_ack = tip_int_ack-KeepsIdle dev user safe
  run-KeepsIdle (Call.poll n) = poll_turns-KeepsIdle dev user safe n

  -- A thread that starts with the mutex free, and whose accesses so far were in order, keeps to the
  -- rule through any list of the calls that `Call` has, whatever the card answers: it locks the mutex only when
  -- it does not hold it, unlocks it only when it does, touches the card only while it holds it, and
  -- holds it no longer at the end. The user's routines are assumed to do the same.
  pub run_all-KeepsIdle : (cs : List Call) → KeepsIdle (run_all dev user cs)
  unfolding run_all
  run_all-KeepsIdle [] w h = h
  run_all-KeepsIdle (c ∷ cs) w h = run_all-KeepsIdle cs _ (run-KeepsIdle c w h)
