-- ===== src/DevZero/Tests.antt =====
-- The emulated file at the sizes and modes that the programs use.
use etransfer.Common.{◌≡◌, refl, false, some, codes, arith}
use etransfer.DevZero.{DevZeroNull, mk_device, is_dev_zero}
use etransfer.DevZero.Io.{IsValid}

-- Opened for writing only.
abbrev write_only : DevZeroNull
write_only = record { closed = false; mode = 1; size = 1000; pointer = 10 }

write_only-IsValid : IsValid write_only
write_only-IsValid = omega arith

two_kib :
    mk_device (codes "/dev/zero:2kiB") 0
    ≡ some (record { closed = false; mode = 0; size = 2000; pointer = 0 })
unfolding mk_device
two_kib = refl

two_kb :
    mk_device (codes "/dev/zero:2kB") 0
    ≡ some (record { closed = false; mode = 0; size = 2048; pointer = 0 })
unfolding mk_device
two_kb = refl

not_dev_zero : is_dev_zero (codes "/dev/zero:k") ≡ false
unfolding is_dev_zero
not_dev_zero = refl
