-- ===== src/Readout/Room.antt =====
-- Whether tipReadBlock stays within the caller's array.
