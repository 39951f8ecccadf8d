-- ===== src/Files.antt =====
-- src/etdc_fd.h and src/etdc_fd.cc: etdc_file and detail::open_file, and the objects of devzeronull
-- that file pointers may point to. The calls of the operating system are the fields of `Os`.
use etransfer.Common.{
  ℕ, suc, zero, Bool, true, false, List, [], ◌∷◌, ◌++◌, Option, none, some, Bytes, Result, ok, err,
  lseek_failed, open_failed, mkdir_failed, bad_device, length, ◌==◌, if◌then◌else◌, map_ok,
}
use etransfer.Common.Int.{ℤ}
use etransfer.Fd.{EtdcFd, Whence}
use etransfer.OpenMode.{OpenFlags}
use etransfer.Path.{slash, normalize_path, dirname}
use etransfer.DevZero.{
  DevZeroNull, mk_device, device_read, device_write, device_lseek, device_close,
}

-- mkdir(2) gives true if it made the directory or that was there; the others give `none` for -1.
-- `uninitialized n` is what stands in n bytes of memory that nobody has written.
pub record Os (W : Type 0) : Type 0 where
  pub mkdir : Bytes → W → W × Bool
  pub open_at : Bytes → OpenFlags → W → W × Option ℕ
  pub read : ℕ → ℕ → W → W × Option Bytes
  pub write : ℕ → Bytes → W → W × Option ℕ
  pub lseek : ℕ → ℤ → Whence → W → W × Option ℤ
  pub close : ℕ → W → W
  pub uninitialized : ℕ → W → Bytes

-- The world of the operating system, and the devzeronull objects in the order they were made.
pub record Store (W : Type 0) : Type 0 where
  pub world : W
  pub devices : List DevZeroNull

pub get_device : List DevZeroNull → ℕ → Option DevZeroNull
get_device [] i = none
get_device (d ∷ ds) zero = some d
get_device (d ∷ ds) (suc i) = get_device ds i

pub set_device : List DevZeroNull → ℕ → DevZeroNull → List DevZeroNull
set_device [] i d = []
set_device (x ∷ ds) zero d = d ∷ ds
set_device (x ∷ ds) (suc i) d = x ∷ set_device ds i d

module _ {W : Type 0} (os : Os W) where
  -- etdc_file::setup_basic_fns; lseek throws where lseek(2) gives -1.
  unfoldable pub file_fd : ℕ → EtdcFd (Store W)
  file_fd fd = record {
    read = λ n s. let (w, r) = os.read fd n s.world in (record s { world = w }, r);
    write = λ bs s. let (w, r) = os.write fd bs s.world in (record s { world = w }, r);
    lseek = λ offset whence s.
        let (w, r) = os.lseek fd offset whence s.world in
        elim r [
          | none ↦ (record s { world = w }, err lseek_failed)
          | some p ↦ (record s { world = w }, ok p)
        ];
    close = λ s. record s { world = os.close fd s.world };
  }

  -- devzeronull::setup_basic_fns for the i-th object. What a read leaves in the buffer is what was
  -- there before.
  unfoldable pub device_fd : ℕ → EtdcFd (Store W)
  unfolding get_device set_device
  device_fd i = record {
    read = λ n s. elim (get_device s.devices i) [
      | none ↦ (s, none)
      | some d ↦
          let (d', r) = device_read n d in
          let s' : Store W = record s { devices = set_device s.devices i d' } in
          elim r [ none ↦ (s', none) | some k ↦ (s', some (os.uninitialized k s.world)) ]
    ];
    write = λ bs s. elim (get_device s.devices i) [
      | none ↦ (s, none)
      | some d ↦
          let (d', r) = device_write (length bs) d in
          (record s { devices = set_device s.devices i d' }, r)
    ];
    lseek = λ offset whence s. elim (get_device s.devices i) [
      | none ↦ (s, err bad_device)
      | some d ↦
          let (d', p) = device_lseek offset whence d in
          (record s { devices = set_device s.devices i d' }, ok p)
    ];
    close = λ s. elim (get_device s.devices i) [
      | none ↦ s
      | some d ↦ record s { devices = set_device s.devices i (device_close d) }
    ];
  }

  -- The directories above the file: one mkdir for each slash in `rest`, which stands behind `front`.
  unfoldable pub make_dirs : Bytes → Bytes → W → W × Result (Unit {0})
  make_dirs front [] w = (w, ok tt)
  make_dirs front (c ∷ rest) w = elim (c == slash) [
    | false ↦ make_dirs (front ++ c ∷ []) rest w
    | true ↦
        let (w', made) = os.mkdir front w in
        elim made [ false ↦ (w', err mkdir_failed) | true ↦ make_dirs (front ++ c ∷ []) rest w' ]
  ]

  -- `dir.find('/', 1)` passes over the first byte.
  unfoldable pub make_dirs_of : Bytes → W → W × Result (Unit {0})
  unfolding make_dirs
  make_dirs_of [] w = (w, ok tt)
  make_dirs_of (c ∷ rest) w = make_dirs (c ∷ []) rest w

  -- The descriptor; the constructor of etdc_file throws where open(2) gives -1.
  unfoldable pub open_file : Bytes → OpenFlags → W → W × Result ℕ
  unfolding make_dirs_of normalize_path dirname
  open_file path flags w =
      let npath = normalize_path path in
      let (w', r) : W × Result (Unit {0}) =
        if flags.creat then make_dirs_of (dirname npath) w else (w, ok tt) in
      elim r [
        | err e ↦ (w', err e)
        | ok _ ↦
            let (w'', fd) = os.open_at npath flags w' in
            elim fd [ none ↦ (w'', err open_failed) | some n ↦ (w'', ok n) ]
      ]

  -- mk_fd<etdc_file>(path, omode)
  unfoldable pub mk_file : Bytes → OpenFlags → Store W → Store W × Result (EtdcFd (Store W))
  unfolding open_file file_fd
  mk_file path flags s =
      let (w, r) = open_file path flags s.world in (record s { world = w }, map_ok file_fd r)

  -- mk_fd<devzeronull>(path, omode). Of the flags only the access bits are read.
  unfoldable pub mk_device_fd : Bytes → OpenFlags → Store W → Store W × Result (EtdcFd (Store W))
  unfolding mk_device device_fd
  mk_device_fd path flags s = elim (mk_device path flags.access) [
    | none ↦ (s, err bad_device)
    | some d ↦ (record s { devices = s.devices ++ d ∷ [] }, ok (device_fd (length s.devices)))
  ]
