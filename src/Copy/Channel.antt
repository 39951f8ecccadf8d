-- ===== src/Copy/Channel.antt =====
-- What the copy loops rely on of the file or socket that they read, and of the one that they write:
-- read(2) and write(2), seen through two logs.
use etransfer.Common.{ℕ, ◌≤◌, ◌≡◌, ◌++◌, Option, none, some, Bytes, length, take}
use etransfer.Fd.{EtdcFd}

-- A read of n bytes gives at most n, in the order of the source; a failed one gives none.
abbrev pub Reads : ℕ → Bytes → Bytes → Option Bytes → Type 0
Reads n before after none = after ≡ before
Reads n before after (some bs) = (length bs ≤ n) × (after ≡ before ++ bs)

-- A write takes a front part of what it is offered; a failed one takes nothing.
abbrev pub Writes : Bytes → Bytes → Bytes → Option ℕ → Type 0
Writes bs before after none = after ≡ before
Writes bs before after (some k) = (k ≤ length bs) × (after ≡ before ++ take k bs)

-- `got` is all that was ever read from src, `put` all that was ever written to dst.
pub record Channel {W : Type 0} (src dst : EtdcFd W) : Type 0 where
  pub got : W → Bytes
  pub put : W → Bytes
  pub read_gets : (n : ℕ) (w : W) → Reads n (got w) (got (src.read n w).0) (src.read n w).1
  pub read_puts : (n : ℕ) (w : W) → put (src.read n w).0 ≡ put w
  pub write_gets : (bs : Bytes) (w : W) → got (dst.write bs w).0 ≡ got w
  pub write_puts :
      (bs : Bytes) (w : W) → Writes bs (put w) (put (dst.write bs w).0) (dst.write bs w).1
  -- the acknowledgement goes the other way
  pub ack_read : (n : ℕ) (w : W) → (got (dst.read n w).0 ≡ got w) × (put (dst.read n w).0 ≡ put w)
  pub ack_write :
      (bs : Bytes) (w : W) → (got (src.write bs w).0 ≡ got w) × (put (src.write bs w).0 ≡ put w)
