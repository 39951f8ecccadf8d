-- ===== src/DevZero/Io.antt =====
-- What the emulated file does: how much can be read from it, and by whom.
use etransfer.Common.{
  ℕ, zero, suc, ◌+◌, ◌-◌, ◌/◌, ◌^◌, min, ◌≤◌, ◌<◌, ◌≡◌, refl, Bool, true, false, none, some,
  if◌then◌else◌, leb, arith,
}
use Prim.Native.Nat.{bit_and, bit_and-bitwise, digits}
use etransfer.Common.Int.{ℤ, pos, negsuc}
use etransfer.Fd.{Whence, seek_end}
use etransfer.OpenMode.{o_rdonly, o_wronly}
use etransfer.DevZero.{
  DevZeroNull, unit, unit_factor, device_read, device_write, device_lseek, device_close,
}

-- The unit behind a size: B with an i counts in thousands, B without in powers of two, the other way
-- round than the units are defined.
pub unit_factor_power :
    (e : ℕ) (i : Bool) → e ≤ 4 → unit_factor (unit e i) ≡ (if i then 1000 else 1024) ^ e
unfolding unit_factor
unit_factor_power zero true h = refl
unit_factor_power zero false h = refl
unit_factor_power (suc zero) true h = refl
unit_factor_power (suc zero) false h = refl
unit_factor_power (suc (suc zero)) true h = refl
unit_factor_power (suc (suc zero)) false h = refl
unit_factor_power (suc (suc (suc zero))) true h = refl
unit_factor_power (suc (suc (suc zero))) false h = refl
unit_factor_power (suc (suc (suc (suc zero)))) true h = refl
unit_factor_power (suc (suc (suc (suc zero)))) false h = refl
unit_factor_power (suc (suc (suc (suc (suc e))))) i h = absurd (omega arith)

digits-zero : (n a : ℕ) → digits (λ b. zero) min n a 0 ≡ 0
digits-zero zero a = refl
digits-zero (suc n) zero = refl
digits-zero (suc n) (suc a) = omega (arith, digits-zero n (suc a / 2))

bit_and-rdonly : (m : ℕ) → bit_and m o_rdonly ≡ o_rdonly
bit_and-rdonly m = omega (arith, bit_and-bitwise m 0, digits-zero m m)

-- The pointer stays within the file, and the file within what size_t holds.
pub record IsValid (d : DevZeroNull) : Type 0 where
  pub pointer_le : d.pointer ≤ d.size
  pub size_lt : d.size < 2 ^ 63

-- A read of an open file of less than 2 ^ 63 bytes succeeds, whatever mode it was opened in: the test
-- of the mode refuses nothing. It gives the bytes that are left, n at most, and moves the pointer by
-- as many.
pub device_read_lem :
    (n : ℕ) (d : DevZeroNull)
    → IsValid d
    → n < 2 ^ 63
    → d.closed ≡ false
    → ((device_read n d).1 ≡ some (min n (d.size - d.pointer)))
      × ((device_read n d).0 ≡ record d { pointer = d.pointer + min n (d.size - d.pointer) })
unfolding device_read
device_read_lem n d v small open_d = ground (arith, bit_and-rdonly d.mode)

-- The bytes that the writer offers are all taken, if the file is open and not read-only by its bits.
pub device_write_lem :
    (n : ℕ) (d : DevZeroNull)
    → IsValid d
    → d.pointer + n < 2 ^ 63
    → d.closed ≡ false
    → d.mode ≡ o_wronly
    → ((device_write n d).1 ≡ some n)
      × ((device_write n d).0.pointer ≡ d.pointer + n)
      × IsValid (device_write n d).0
unfolding device_write
device_write_lem n d v small open_d wr = ground arith

pub device_read-IsValid :
    (n : ℕ) (d : DevZeroNull) → n < 2 ^ 63 → IsValid d → IsValid (device_read n d).0
unfolding device_read
device_read-IsValid n d small v = ground arith

-- A seek from the end goes back, not on: SEEK_END with the offset k, within the file, stops at
-- size - k, and one past the size is refused.
pub device_lseek_end :
    (k : ℕ) (d : DevZeroNull)
    → IsValid d
    → k < 2 ^ 63
    → d.closed ≡ false
    → ((device_lseek (pos k) seek_end d).1 ≡ (if leb k d.size then pos (d.size - k) else negsuc 0))
      × ((device_lseek (pos k) seek_end d).0.pointer
          ≡ (if leb k d.size then d.size - k else d.pointer))
unfolding device_lseek
device_lseek_end k d v small open_d = ground arith

-- Once closed nothing works.
pub device_closed :
    (n : ℕ) (o : ℤ) (whence : Whence) (d : DevZeroNull)
    → let c = device_close d in
      (device_read n c ≡ (c, none))
      × (device_write n c ≡ (c, none))
      × (device_lseek o whence c ≡ (c, negsuc 0))
unfolding device_close device_read device_write device_lseek
device_closed n o whence d = (refl, refl, refl)
