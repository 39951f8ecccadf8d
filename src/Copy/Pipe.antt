-- ===== src/Copy/Pipe.antt =====
-- A pipe to try the loops that move bytes: src gives what stands in `input`, dst keeps all in `output`.
use etransfer.Common.{
  ℕ, zero, suc, ◌≡◌, refl, sym, ap, err, lseek_failed, [], ◌∷◌, ◌++◌, some, Bytes, codes, length,
  take, drop, take-length, length-take, arith,
}
use etransfer.Fd.{EtdcFd}
use etransfer.Copy.Channel.{Channel}
use etransfer.Copy.Overrun.{Reliable}

pub record Pipe : Type 0 where
  pub input : Bytes
  pub taken : Bytes
  pub output : Bytes

abbrev pub source : EtdcFd Pipe
source = record {
  read = λ n w. (
    record w { input = drop n w.input; taken = w.taken ++ take n w.input },
    some (take n w.input),
  );
  write = λ bs w. (w, some (length bs));
  lseek = λ _ _ w. (w, err lseek_failed);
  close = λ w. w;
}

-- A write of the sink takes three bytes at most.
abbrev pub sink : ℕ → EtdcFd Pipe
sink most = record {
  read = λ _ w. (w, some []);
  write = λ bs w. (record w { output = w.output ++ take most bs }, some (length (take most bs)));
  lseek = λ _ _ w. (w, err lseek_failed);
  close = λ w. w;
}

pub take-take : (n : ℕ) (xs : Bytes) → take (length (take n xs)) xs ≡ take n xs
take-take zero xs = refl
take-take (suc n) [] = refl
take-take (suc n) (x ∷ xs) = ap (◌∷◌ x) (take-take n xs)

abbrev pub pipe : (most : ℕ) → Channel source (sink most)
pipe most = record {
  got = λ w. w.taken;
  put = λ w. w.output;
  read_gets = λ n w. (omega (arith, length-take n w.input), refl);
  read_puts = λ n w. refl;
  write_gets = λ bs w. refl;
  write_puts =
      λ bs w. (omega (arith, length-take most bs), ap (◌++◌ w.output) (sym (take-take most bs)));
  ack_read = λ n w. (refl, refl);
  ack_write = λ bs w. (refl, refl);
}

-- A disk takes all that it is given.
abbrev pub disk : EtdcFd Pipe
disk = record {
  read = λ _ w. (w, some []);
  write = λ bs w. (record w { output = w.output ++ bs }, some (length bs));
  lseek = λ _ _ w. (w, err lseek_failed);
  close = λ w. w;
}

abbrev pub to_disk : Channel source disk
to_disk = record {
  got = λ w. w.taken;
  put = λ w. w.output;
  read_gets = λ n w. (omega (arith, length-take n w.input), refl);
  read_puts = λ n w. refl;
  write_gets = λ bs w. refl;
  write_puts = λ bs w. (omega arith, ap (◌++◌ w.output) (sym (take-length bs)));
  ack_read = λ n w. (refl, refl);
  ack_write = λ bs w. (refl, refl);
}

abbrev pub to_disk-Reliable : Reliable source disk
to_disk-Reliable = record { reads = λ n w. (take n w.input, refl); takes = λ bs w. refl }

abbrev pub start : Pipe
start = record { input = codes "hello world"; taken = []; output = [] }
