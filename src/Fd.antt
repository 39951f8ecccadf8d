-- ===== src/Fd.antt =====
-- src/etdc_fd.h: the struct etdc_fd, whose members are functions that each kind of file or socket
-- supplies. `W` is the world that they act on.
use etransfer.Common.{ℕ, Bytes, Option, Result}
use etransfer.Common.Int.{ℤ}

-- whence of lseek(2)
pub data Whence : Type 0 where
  seek_set seek_cur seek_end : Whence

-- `read n` is the call with a count of n: the bytes that it put into the buffer, `none` for -1.
-- `write` gives the number of bytes taken, `none` for -1; `lseek` the new position, or the
-- exception that its wrapper throws.
pub record EtdcFd (W : Type 0) : Type 0 where
  pub read : ℕ → W → W × Option Bytes
  pub write : Bytes → W → W × Option ℕ
  pub lseek : ℤ → Whence → W → W × Result ℤ
  pub close : W → W
