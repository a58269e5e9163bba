-- ===== src/Calls/Closed.antt =====
-- No library call but the one that opens the card touches it while it is not open.
use tipcie.Prelude.{Bool, true, false, ◌≡◌, arith}
use tipcie.Machine.{Device, World}
use tipcie.Machine.Touch.{touches}
use tipcie.Interrupt.{Routines}
use tipcie.Calls.{Call, run}
use tipcie.Block.Closed.{
  tip_get_next_block_level_untouched, tip_get_current_block_level_untouched,
  tip_broadcast_next_block_level_untouched, tip_set_block_level_untouched,
  tip_set_instant_block_level_change_untouched, tip_get_instant_block_level_change_untouched,
}
use tipcie.Buffer.Closed.{
  tip_set_block_buffer_level_untouched, tip_get_broadcast_block_buffer_level_untouched,
  tip_busy_on_buffer_level_untouched, tip_use_broadcast_buffer_level_untouched,
  tip_set_block_limit_untouched, tip_get_block_limit_untouched,
  tip_get_block_limit_status_untouched, tip_bready_untouched, tip_get_sync_event_flag_untouched,
  tip_get_sync_event_received_untouched, tip_get_readout_events_untouched,
}
use tipcie.Crate.Closed.{
  tip_set_fiber_latency_offset_pre_init_untouched, tip_set_crate_id_pre_init_untouched,
  tip_set_crate_id_untouched, tip_get_crate_id_untouched, tip_get_port_trig_src_enabled_untouched,
  tip_get_slave_blocklevel_untouched, tip_reset_untouched, tip_clock_resync_untouched,
}
use tipcie.Trigger.Closed.{
  tip_set_trigger_source_untouched, tip_set_trigger_source_mask_untouched,
  tip_enable_trigger_source_untouched, tip_fill_to_end_block_untouched,
  tip_disable_trigger_source_untouched, tip_trigger_ready_reset_untouched,
  tip_force_send_trigger_source_enable_untouched,
}
use tipcie.Pulser.Closed.{
  tip_soft_trig_untouched, tip_set_random_trigger_untouched, tip_disable_random_trigger_untouched,
  tip_set_prescale_untouched, tip_set_prompt_trigger_width_untouched, tip_get_prescale_untouched,
  tip_get_prompt_trigger_width_untouched, tip_set_input_prescale_untouched,
  tip_get_input_prescale_untouched, tip_set_trigger_pulse_untouched,
}
use tipcie.Sync.Closed.{
  tip_set_sync_source_untouched, tip_set_sync_delay_width_untouched, tip_trig_link_reset_untouched,
  tip_set_sync_reset_type_untouched, tip_sync_reset_resync_untouched,
  tip_reset_event_counter_untouched, tip_sync_reset_untouched, tip_clock_reset_untouched,
  tip_get_event_counter_untouched,
}
use tipcie.Inputs.Closed.{
  tip_enable_ts_input_untouched, tip_set_output_port_untouched, tip_disable_ts_input_untouched,
  tip_set_event_format_untouched, tip_set_fp_input_readout_untouched,
}
use tipcie.Fiber.Closed.{
  tip_set_fiber_delay_untouched, tip_enable_fiber_untouched, tip_disable_fiber_untouched,
  tip_set_busy_source_untouched, tip_set_trigger_lock_untouched, tip_get_trigger_lock_untouched,
  tip_reset_slave_config_untouched, tip_add_slave_untouched, tip_set_clock_source_untouched,
  tip_get_clock_source_untouched,
}
use tipcie.Setup.Closed.{
  tip_reset_mgt_untouched, tip_get_firmware_version_untouched, tip_enable_fifo_untouched,
  tip_dma_config_untouched, tip_dma_set_addr_untouched,
}
use tipcie.Holdoff.Closed.{
  tip_set_trigger_holdoff_untouched, tip_get_trigger_holdoff_untouched,
  tip_set_trigger_holdoff_min_untouched, tip_get_trigger_holdoff_min_untouched,
}
use tipcie.Table.Closed.{
  tip_trigger_table_config_untouched, tip_get_trigger_table_untouched,
  tip_trigger_table_predefined_config_untouched, tip_define_event_type_untouched,
  tip_define_pulser_event_type_untouched, tip_load_trigger_table_untouched,
}
use tipcie.Window.Closed.{
  tip_set_trigger_window_untouched, tip_get_trigger_window_untouched,
  tip_set_trigger_inhibit_window_untouched, tip_get_trigger_inhibit_window_untouched,
  tip_set_trig21_delay_untouched, tip_get_trig21_delay_untouched,
  tip_set_trigger_latch_on_level_untouched, tip_get_trigger_latch_on_level_untouched,
}
use tipcie.Scalers.Closed.{
  tip_latch_timers_untouched, tip_get_live_time_untouched, tip_get_busy_time_untouched,
  tip_live_untouched, tip_get_tsscaler_untouched,
}
use tipcie.History.Closed.{
  tip_set_user_sync_reset_receive_untouched, tip_get_last_sync_codes_untouched,
  tip_get_sync_history_buffer_status_untouched, tip_reset_sync_history_untouched,
  tip_user_sync_reset_untouched, tip_print_sync_history_untouched,
}
use tipcie.SyncEvents.Closed.{
  tip_set_sync_event_interval_untouched, tip_get_sync_event_interval_untouched,
  tip_force_sync_event_untouched, tip_sync_reset_request_untouched,
  tip_get_sync_reset_request_untouched, tip_enable_sync_reset_request_untouched,
  tip_sync_reset_request_status_untouched,
}
use tipcie.Delays.Closed.{tip_set_tsinput_delay_untouched, tip_get_tsinput_delay_untouched}
use tipcie.Slave.Closed.{
  tip_set_slave_port_untouched, tip_get_connected_fiber_mask_untouched,
  tip_get_trig_src_enabled_fiber_mask_untouched, tip_get_fiber_latency_measurement_untouched,
  tip_reset_mgtreceiver_untouched, tip_reset_block_readout_untouched,
}
use tipcie.Interrupt.Closed.{
  tip_int_connect_untouched, tip_int_disconnect_untouched, tip_ack_connect_untouched,
  tip_do_library_polling_thread_untouched, tip_get_int_count_untouched, tip_get_ack_count_untouched,
  tip_int_enable_untouched, tip_int_disable_untouched, tip_int_ack_untouched, poll_turns_untouched,
}
use tipcie.Readout.Closed.{
  tip_fake_trigger_bank_on_error_untouched, tip_read_block_untouched,
  tip_generate_trigger_bank_untouched, tip_read_trigger_block_untouched,
}

abbrev pub is_opening : Call → Bool
is_opening c = elim c [ Call.open_card a ↦ true | _ ↦ false ]

module _ (dev : Device) (user : Routines) where
  -- While the library is not open, no call that `Call` has, but tip_open, touches the card or the DMA
  -- memory, for any arguments, whatever the user's routines do.
  pub run_untouched :
      (c : Call) (w : World)
      → w.lib.opened ≡ false
      → is_opening c ≡ false
      → touches (run dev user c w).1.log ≡ touches w.log
  unfolding run
  run_untouched Call.get_next_block_level w closed other =
      tip_get_next_block_level_untouched dev w closed
  run_untouched Call.get_current_block_level w closed other =
      tip_get_current_block_level_untouched dev w closed
  run_untouched (Call.broadcast_next_block_level a) w closed other =
      tip_broadcast_next_block_level_untouched dev a w closed
  run_untouched (Call.set_block_level a) w closed other =
      tip_set_block_level_untouched dev a w closed
  run_untouched (Call.set_instant_block_level_change a) w closed other =
      tip_set_instant_block_level_change_untouched dev a w closed
  run_untouched Call.get_instant_block_level_change w closed other =
      tip_get_instant_block_level_change_untouched dev w closed
  run_untouched (Call.set_block_buffer_level a) w closed other =
      tip_set_block_buffer_level_untouched dev a w closed
  run_untouched Call.get_broadcast_block_buffer_level w closed other =
      tip_get_broadcast_block_buffer_level_untouched dev w closed
  run_untouched (Call.busy_on_buffer_level a) w closed other =
      tip_busy_on_buffer_level_untouched dev a w closed
  run_untouched (Call.use_broadcast_buffer_level a) w closed other =
      tip_use_broadcast_buffer_level_untouched dev a w closed
  run_untouched (Call.set_block_limit a) w closed other =
      tip_set_block_limit_untouched dev a w closed
  run_untouched Call.get_block_limit w closed other = tip_get_block_limit_untouched dev w closed
  run_untouched Call.get_block_limit_status w closed other =
      tip_get_block_limit_status_untouched dev w closed
  run_untouched Call.bready w closed other = tip_bready_untouched dev w closed
  run_untouched Call.get_sync_event_flag w closed other =
      tip_get_sync_event_flag_untouched dev w closed
  run_untouched Call.get_sync_event_received w closed other =
      tip_get_sync_event_received_untouched dev w closed
  run_untouched Call.get_readout_events w closed other =
      tip_get_readout_events_untouched dev w closed
  run_untouched (Call.set_fiber_latency_offset_pre_init a) w closed other =
      tip_set_fiber_latency_offset_pre_init_untouched dev a w closed
  run_untouched (Call.set_crate_id_pre_init a) w closed other =
      tip_set_crate_id_pre_init_untouched dev a w closed
  run_untouched (Call.set_crate_id a) w closed other = tip_set_crate_id_untouched dev a w closed
  run_untouched (Call.get_crate_id a) w closed other = tip_get_crate_id_untouched dev a w closed
  run_untouched (Call.get_port_trig_src_enabled a) w closed other =
      tip_get_port_trig_src_enabled_untouched dev a w closed
  run_untouched (Call.get_slave_blocklevel a) w closed other =
      tip_get_slave_blocklevel_untouched dev a w closed
  run_untouched Call.reset w closed other = tip_reset_untouched dev w closed
  run_untouched Call.clock_resync w closed other = tip_clock_resync_untouched dev w closed
  run_untouched (Call.set_trigger_source a) w closed other =
      tip_set_trigger_source_untouched dev a w closed
  run_untouched (Call.set_trigger_source_mask a) w closed other =
      tip_set_trigger_source_mask_untouched dev a w closed
  run_untouched Call.enable_trigger_source w closed other =
      tip_enable_trigger_source_untouched dev w closed
  run_untouched Call.fill_to_end_block w closed other = tip_fill_to_end_block_untouched dev w closed
  run_untouched (Call.disable_trigger_source a) w closed other =
      tip_disable_trigger_source_untouched dev a w closed
  run_untouched Call.trigger_ready_reset w closed other =
      tip_trigger_ready_reset_untouched dev w closed
  run_untouched Call.force_send_trigger_source_enable w closed other =
      tip_force_send_trigger_source_enable_untouched dev w closed
  run_untouched (Call.soft_trig a b c d) w closed other =
      tip_soft_trig_untouched dev a b c d w closed
  run_untouched (Call.set_random_trigger a b) w closed other =
      tip_set_random_trigger_untouched dev a b w closed
  run_untouched Call.disable_random_trigger w closed other =
      tip_disable_random_trigger_untouched dev w closed
  run_untouched (Call.set_prescale a) w closed other = tip_set_prescale_untouched dev a w closed
  run_untouched (Call.set_prompt_trigger_width a) w closed other =
      tip_set_prompt_trigger_width_untouched dev a w closed
  run_untouched Call.get_prescale w closed other = tip_get_prescale_untouched dev w closed
  run_untouched Call.get_prompt_trigger_width w closed other =
      tip_get_prompt_trigger_width_untouched dev w closed
  run_untouched (Call.set_input_prescale a b) w closed other =
      tip_set_input_prescale_untouched dev a b w closed
  run_untouched (Call.get_input_prescale a) w closed other =
      tip_get_input_prescale_untouched dev a w closed
  run_untouched (Call.set_trigger_pulse a b c d) w closed other =
      tip_set_trigger_pulse_untouched dev a b c d w closed
  run_untouched (Call.set_sync_source a) w closed other =
      tip_set_sync_source_untouched dev a w closed
  run_untouched (Call.set_sync_delay_width a b c) w closed other =
      tip_set_sync_delay_width_untouched dev a b c w closed
  run_untouched Call.trig_link_reset w closed other = tip_trig_link_reset_untouched dev w closed
  run_untouched (Call.set_sync_reset_type a) w closed other =
      tip_set_sync_reset_type_untouched dev a w closed
  run_untouched Call.sync_reset_resync w closed other = tip_sync_reset_resync_untouched dev w closed
  run_untouched Call.reset_event_counter w closed other =
      tip_reset_event_counter_untouched dev w closed
  run_untouched (Call.sync_reset a) w closed other = tip_sync_reset_untouched dev a w closed
  run_untouched Call.clock_reset w closed other = tip_clock_reset_untouched dev w closed
  run_untouched Call.get_event_counter w closed other = tip_get_event_counter_untouched dev w closed
  run_untouched (Call.enable_ts_input a) w closed other =
      tip_enable_ts_input_untouched dev a w closed
  run_untouched (Call.set_output_port a b c d) w closed other =
      tip_set_output_port_untouched dev a b c d w closed
  run_untouched (Call.disable_ts_input a) w closed other =
      tip_disable_ts_input_untouched dev a w closed
  run_untouched (Call.set_event_format a) w closed other =
      tip_set_event_format_untouched dev a w closed
  run_untouched (Call.set_fp_input_readout a) w closed other =
      tip_set_fp_input_readout_untouched dev a w closed
  run_untouched (Call.set_fiber_delay a b) w closed other =
      tip_set_fiber_delay_untouched dev a b w closed
  run_untouched (Call.enable_fiber a) w closed other = tip_enable_fiber_untouched dev a w closed
  run_untouched (Call.disable_fiber a) w closed other = tip_disable_fiber_untouched dev a w closed
  run_untouched (Call.set_busy_source a b) w closed other =
      tip_set_busy_source_untouched dev a b w closed
  run_untouched (Call.set_trigger_lock a) w closed other =
      tip_set_trigger_lock_untouched dev a w closed
  run_untouched Call.get_trigger_lock w closed other = tip_get_trigger_lock_untouched dev w closed
  run_untouched Call.reset_slave_config w closed other =
      tip_reset_slave_config_untouched dev w closed
  run_untouched (Call.add_slave a) w closed other = tip_add_slave_untouched dev a w closed
  run_untouched (Call.set_clock_source a) w closed other =
      tip_set_clock_source_untouched dev a w closed
  run_untouched Call.get_clock_source w closed other = tip_get_clock_source_untouched dev w closed
  run_untouched Call.reset_mgt w closed other = tip_reset_mgt_untouched dev w closed
  run_untouched Call.get_firmware_version w closed other =
      tip_get_firmware_version_untouched dev w closed
  run_untouched Call.enable_fifo w closed other = tip_enable_fifo_untouched dev w closed
  run_untouched (Call.dma_config a b c) w closed other = tip_dma_config_untouched dev a b c w closed
  run_untouched (Call.dma_set_addr a b) w closed other = tip_dma_set_addr_untouched dev a b w closed
  run_untouched (Call.set_trigger_holdoff a b c) w closed other =
      tip_set_trigger_holdoff_untouched dev a b c w closed
  run_untouched (Call.get_trigger_holdoff a) w closed other =
      tip_get_trigger_holdoff_untouched dev a w closed
  run_untouched (Call.set_trigger_holdoff_min a b) w closed other =
      tip_set_trigger_holdoff_min_untouched dev a b w closed
  run_untouched (Call.get_trigger_holdoff_min a b) w closed other =
      tip_get_trigger_holdoff_min_untouched dev a b w closed
  run_untouched (Call.trigger_table_config a) w closed other =
      tip_trigger_table_config_untouched dev a w closed
  run_untouched (Call.get_trigger_table a) w closed other =
      tip_get_trigger_table_untouched dev a w closed
  run_untouched (Call.trigger_table_predefined_config a) w closed other =
      tip_trigger_table_predefined_config_untouched dev a w closed
  run_untouched (Call.define_event_type a b c) w closed other =
      tip_define_event_type_untouched dev a b c w closed
  run_untouched (Call.define_pulser_event_type a b) w closed other =
      tip_define_pulser_event_type_untouched dev a b w closed
  run_untouched (Call.load_trigger_table a) w closed other =
      tip_load_trigger_table_untouched dev a w closed
  run_untouched (Call.set_trigger_window a) w closed other =
      tip_set_trigger_window_untouched dev a w closed
  run_untouched Call.get_trigger_window w closed other =
      tip_get_trigger_window_untouched dev w closed
  run_untouched (Call.set_trigger_inhibit_window a) w closed other =
      tip_set_trigger_inhibit_window_untouched dev a w closed
  run_untouched Call.get_trigger_inhibit_window w closed other =
      tip_get_trigger_inhibit_window_untouched dev w closed
  run_untouched (Call.set_trig21_delay a) w closed other =
      tip_set_trig21_delay_untouched dev a w closed
  run_untouched Call.get_trig21_delay w closed other = tip_get_trig21_delay_untouched dev w closed
  run_untouched (Call.set_trigger_latch_on_level a) w closed other =
      tip_set_trigger_latch_on_level_untouched dev a w closed
  run_untouched Call.get_trigger_latch_on_level w closed other =
      tip_get_trigger_latch_on_level_untouched dev w closed
  run_untouched Call.latch_timers w closed other = tip_latch_timers_untouched dev w closed
  run_untouched Call.get_live_time w closed other = tip_get_live_time_untouched dev w closed
  run_untouched Call.get_busy_time w closed other = tip_get_busy_time_untouched dev w closed
  run_untouched (Call.live a b) w closed other = tip_live_untouched dev a b w closed
  run_untouched (Call.get_tsscaler a b) w closed other = tip_get_tsscaler_untouched dev a b w closed
  run_untouched (Call.set_user_sync_reset_receive a) w closed other =
      tip_set_user_sync_reset_receive_untouched dev a w closed
  run_untouched (Call.get_last_sync_codes a) w closed other =
      tip_get_last_sync_codes_untouched dev a w closed
  run_untouched (Call.get_sync_history_buffer_status a) w closed other =
      tip_get_sync_history_buffer_status_untouched dev a w closed
  run_untouched Call.reset_sync_history w closed other =
      tip_reset_sync_history_untouched dev w closed
  run_untouched (Call.user_sync_reset a) w closed other =
      tip_user_sync_reset_untouched dev a w closed
  run_untouched Call.print_sync_history w closed other =
      tip_print_sync_history_untouched dev w closed
  run_untouched (Call.set_sync_event_interval a) w closed other =
      tip_set_sync_event_interval_untouched dev a w closed
  run_untouched Call.get_sync_event_interval w closed other =
      tip_get_sync_event_interval_untouched dev w closed
  run_untouched Call.force_sync_event w closed other = tip_force_sync_event_untouched dev w closed
  run_untouched Call.sync_reset_request w closed other =
      tip_sync_reset_request_untouched dev w closed
  run_untouched Call.get_sync_reset_request w closed other =
      tip_get_sync_reset_request_untouched dev w closed
  run_untouched (Call.enable_sync_reset_request a b) w closed other =
      tip_enable_sync_reset_request_untouched dev a b w closed
  run_untouched (Call.sync_reset_request_status a) w closed other =
      tip_sync_reset_request_status_untouched dev a w closed
  run_untouched (Call.set_tsinput_delay a b) w closed other =
      tip_set_tsinput_delay_untouched dev a b w closed
  run_untouched (Call.get_tsinput_delay a) w closed other =
      tip_get_tsinput_delay_untouched dev a w closed
  run_untouched (Call.set_slave_port a) w closed other = tip_set_slave_port_untouched dev a w closed
  run_untouched Call.get_connected_fiber_mask w closed other =
      tip_get_connected_fiber_mask_untouched dev w closed
  run_untouched Call.get_trig_src_enabled_fiber_mask w closed other =
      tip_get_trig_src_enabled_fiber_mask_untouched dev w closed
  run_untouched Call.get_fiber_latency_measurement w closed other =
      tip_get_fiber_latency_measurement_untouched dev w closed
  run_untouched Call.reset_mgtreceiver w closed other = tip_reset_mgtreceiver_untouched dev w closed
  run_untouched Call.reset_block_readout w closed other =
      tip_reset_block_readout_untouched dev w closed
  run_untouched (Call.int_connect a b c) w closed other =
      tip_int_connect_untouched dev a b c w closed
  run_untouched Call.int_disconnect w closed other = tip_int_disconnect_untouched dev w closed
  run_untouched (Call.ack_connect a b) w closed other = tip_ack_connect_untouched dev a b w closed
  run_untouched (Call.do_library_polling_thread a) w closed other =
      tip_do_library_polling_thread_untouched dev a w closed
  run_untouched Call.get_int_count w closed other = tip_get_int_count_untouched dev w closed
  run_untouched Call.get_ack_count w closed other = tip_get_ack_count_untouched dev w closed
  run_untouched (Call.int_enable a) w closed other = tip_int_enable_untouched dev a w closed
  run_untouched Call.int_disable w closed other = tip_int_disable_untouched dev w closed
  run_untouched (Call.fake_trigger_bank_on_error a) w closed other =
      tip_fake_trigger_bank_on_error_untouched dev a w closed
  run_untouched (Call.read_block a b c) w closed other = tip_read_block_untouched dev a b c w closed
  run_untouched (Call.generate_trigger_bank a) w closed other =
      tip_generate_trigger_bank_untouched dev a w closed
  run_untouched (Call.read_trigger_block a) w closed other =
      tip_read_trigger_block_untouched dev a w closed
  run_untouched (Call.open_card a) w closed other = absurd (ground arith)
  run_untouched Call.int_ack w closed other = tip_int_ack_untouched dev user w closed
  run_untouched (Call.poll n) w closed other = poll_turns_untouched dev user n w closed
