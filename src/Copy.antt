-- ===== src/Copy.antt =====
-- src/etdc_etdserver.cc: the loops that move the bytes of a file, ETDDataServer::push_n and pull_n.
-- size_t is 64 bits wide, and the wrap-around of its subtractions is written out.
pub mod Channel
pub mod Flush
pub mod Push
mod Pull
pub mod Overrun
pub mod Pipe
mod Tests
use etransfer.Common.{
  ℕ, zero, suc, ◌+◌, ◌-◌, ◌%◌, ◌^◌, min, true, false, [], ◌∷◌, ◌++◌, none, some, Bytes, Result, ok,
  err, read_failed, read_hung_up, write_failed, write_zero, short_write, nothing_to_write,
  out_of_fuel, length, drop, ◌==◌, if◌then◌else◌,
}
use etransfer.Fd.{EtdcFd}

-- a - b in size_t
abbrev pub size_sub : ℕ → ℕ → ℕ
size_sub a b = (a + 2 ^ 64 - b) % 2 ^ 64

-- the byte 'y'
abbrev pub ack : Bytes
ack = b'y' ∷ []

module _ {W : Type 0} where
  -- `while( aRead>0 )`: writes what stands in the buffer until all of it is taken. The number that
  -- comes back is nWritten.
  unfoldable pub write_all : ℕ → EtdcFd W → Bytes → ℕ → W → W × Result ℕ
  write_all fuel dst [] written w = (w, ok written)
  write_all zero dst (b ∷ bs) written w = (w, err out_of_fuel)
  write_all (suc fuel) dst (b ∷ bs) written w =
      let (w', r) = dst.write (b ∷ bs) w in
      elim r [
        | none ↦ (w', err write_failed)
        | some k ↦ elim (k == 0) [
          | true ↦ (w', err write_zero)
          | false ↦ write_all fuel dst (drop k (b ∷ bs)) (written + k) w'
        ]
      ]

  -- `while( n>0 )` of push_n.
  unfoldable pub push_loop : ℕ → EtdcFd W → EtdcFd W → ℕ → ℕ → W → W × Result (Unit {0})
  push_loop fuel src dst buf_sz zero w = (w, ok tt)
  push_loop zero src dst buf_sz (suc n) w = (w, err out_of_fuel)
  push_loop (suc fuel) src dst buf_sz (suc n) w =
      let (w', r) = src.read (min (suc n) buf_sz) w in
      elim r [
        | none ↦ (w', err read_failed)
        | some bs ↦ elim bs [
          | [] ↦ (w', err read_hung_up)
          | b ∷ more ↦
              let (w'', written) = write_all (length (b ∷ more)) dst (b ∷ more) 0 w' in
              elim written [
                | err e ↦ (w'', err e)
                | ok k ↦ push_loop fuel src dst buf_sz (size_sub (suc n) k) w''
              ]
        ]
      ]

  -- The wait for the acknowledgement that follows a loop that returned. What comes is ignored.
  unfoldable pub await_ack : EtdcFd W → W × Result (Unit {0}) → W × Result (Unit {0})
  await_ack peer (w, ok _) = ((peer.read 1 w).0, ok tt)
  await_ack peer (w, err e) = (w, err e)

  -- The acknowledgement itself; whether it got out is not looked at.
  unfoldable pub send_ack : EtdcFd W → W × Result (Unit {0}) → W × Result (Unit {0})
  send_ack peer (w, ok _) = ((peer.write ack w).0, ok tt)
  send_ack peer (w, err e) = (w, err e)

  -- ETDDataServer::push_n. The loop is given n rounds.
  pub push_n : ℕ → EtdcFd W → EtdcFd W → ℕ → W → W × Result (Unit {0})
  unfolding await_ack
  push_n n src dst buf_sz w = await_ack dst (push_loop n src dst buf_sz n w)

  -- The asserted write of pull_n: all that it is offered is taken at once.
  pub write_whole : EtdcFd W → Bytes → W → W × Result ℕ
  write_whole dst bs w =
      let (w', r) = dst.write bs w in
      elim r [
        | none ↦ (w', err short_write)
        | some k ↦ if k == length bs then (w', ok k) else (w', err short_write)
      ]

  -- `while( n>0 )` of pull_n. `buf` is the front of the buffer, up to wrEnd.
  pub pull_loop : ℕ → EtdcFd W → EtdcFd W → ℕ → ℕ → ℕ → Bytes → W → W × Result (Unit {0})
  pull_loop fuel src dst buf_sz zero rd_pos buf w = (w, ok tt)
  pull_loop zero src dst buf_sz (suc n) rd_pos buf w = (w, err out_of_fuel)
  pull_loop (suc fuel) src dst buf_sz (suc n) rd_pos buf w =
      let wr_end = length buf in
      let (w', r) = src.read (min (size_sub (suc n + rd_pos) wr_end) (size_sub buf_sz wr_end)) w in
      elim r [
        | none ↦ (w', err read_failed)
        | some bs ↦ elim (drop rd_pos (buf ++ bs)) [
          | [] ↦ (w', err nothing_to_write)
          | b ∷ out ↦
              let (w'', written) = write_whole dst (b ∷ out) w' in
              elim written [
                | err e ↦ (w'', err e)
                | ok _ ↦
                    pull_loop fuel src dst buf_sz (size_sub (suc n) (length (b ∷ out))) 0 [] w''
              ]
        ]
      ]

  -- ETDDataServer::pull_n. The loop is given n rounds.
  pub pull_n : ℕ → EtdcFd W → EtdcFd W → ℕ → ℕ → Bytes → W → W × Result (Unit {0})
  unfolding send_ack
  pull_n n src dst buf_sz rd_pos buf w = send_ack src (pull_loop n src dst buf_sz n rd_pos buf w)
