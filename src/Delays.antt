-- ===== src/Delays.antt =====
-- TIpcieLib.c: the delays of the TS inputs, three to a register.
pub mod Idle
pub mod Closed
pub mod Channels
use tipcie.Prelude.{
  ℕ, ◌+◌, ◌-◌, ◌*◌, ◌/◌, ◌%◌, ◌^◌, not, ◌||◌, bit_and, bit_or, ℤ, ok, error, above, negative,
  to_u32, to_int, if◌then◌else◌,
}
use tipcie.Bits.Fields.{not32}
use tipcie.Machine.{Device, M, pure, ◌>>=◌, ◌>>◌, globals, tiplock, tipunlock, tip_read, tip_write}
use tipcie.Machine.Reg

-- TIP_FPDELAY_MASK
delay_mask : ℕ → ℕ
delay_mask x = 0x1ff * 2 ^ (10 * (x % 3))

module _ (dev : Device) where
  pub tip_set_tsinput_delay : ℤ → ℤ → M ℤ
  unfolding delay_mask
  tip_set_tsinput_delay chan delay = do
    g ← globals
    if not g.opened
        then pure error
        else if not (above chan 0) || above chan 6
        then pure error
        else if negative delay || above delay 0x1ff
        then pure error
        else do
          tiplock
          let c = to_u32 chan - 1
          v ← tip_read dev (Reg.fp_delay + 4 * (c / 3))
          tip_write (Reg.fp_delay + 4 * (c / 3))
              (bit_or (bit_and v (not32 (delay_mask c))) (to_u32 delay * 2 ^ (10 * (c % 3))))
          tipunlock
          pure ok

  pub tip_get_tsinput_delay : ℤ → M ℤ
  unfolding delay_mask
  tip_get_tsinput_delay chan = do
    g ← globals
    if not g.opened
        then pure error
        else if not (above chan 0) || above chan 6
        then pure error
        else do
          tiplock
          let c = to_u32 chan - 1
          v ← tip_read dev (Reg.fp_delay + 4 * (c / 3))
          tipunlock
          pure (to_int (bit_and v (delay_mask c) / 2 ^ (10 * (c % 3))))
