-- ===== src/DataServer.antt =====
-- src/etdc_etdserver.cc: ETDDataServer::handle, which reads a command "{ uuid:…, sz:… [, push:1] }" from a
-- data connection and copies bytes to or from the file of the transfer that it names.
pub mod Header
pub mod Parsed
mod Serving
mod Tests
use etransfer.Common.{
  ℕ, zero, suc, ◌+◌, ◌-◌, ◌*◌, ◌^◌, take, Bool, true, false, List, [], ◌∷◌, ◌++◌, Option, none,
  some, Bytes, codes, Result, ok, err, out_of_fuel, read_hung_up, missing_field, duplicate_field,
  bad_number, bad_push, no_command, not_initialized, not_for_reading, not_for_writing, length, leb,
  ltb, not, bytes_eq, ◌==◌, ◌&&◌, ◌||◌, if◌then◌else◌,
}
use etransfer.Common.Int.{ℤ, pos, negsuc}
use etransfer.Text.{is_space, is_digit, take_while, drop_while, case_insensitive_lt}
use etransfer.Fd.{EtdcFd}
use etransfer.OpenMode.{OpenMode}
use etransfer.DevZero.{digits_value}
use etransfer.Files.{Store}
use etransfer.State.{Transfer, EtdState, find_uuid}
use etransfer.Server.{Attempt, again, done, is_read_mode}
use etransfer.Copy.{push_n, pull_n}
use etransfer.Exchange.{may_fill}
use etransfer.KeyValue.{scan_pairs, find_key, no_duplicates}

-- string2off_t: std::stol reads a number behind spaces and a sign, and leaves what stands behind it.
unfoldable pub signed_off_t : Bool → ℕ → Option ℤ
signed_off_t true n =
    if leb n (2 ^ 63) then some (elim n [ zero ↦ pos 0 | suc k ↦ negsuc k ]) else none
signed_off_t false n = if ltb n (2 ^ 63) then some (pos n) else none

unfoldable pub stol_digits : Bool → Bytes → Option ℤ
unfolding digits_value is_digit signed_off_t
stol_digits minus s = elim (take_while is_digit s) [
  | [] ↦ none
  | d ∷ ds ↦ signed_off_t minus (digits_value 0 (d ∷ ds))
]

unfoldable pub stol : Bytes → Option ℤ
unfolding stol_digits is_space
stol s = elim (drop_while is_space s) [
  | [] ↦ none
  | c ∷ r ↦
      if c == b'-'
      then stol_digits true r
      else if c == b'+'
      then stol_digits false r
      else stol_digits false (c ∷ r)
]

-- What a command asks for, once it is verified.
pub record DataRequest : Type 0 where
  pub uuid : Bytes
  pub amount : ℤ
  pub push : Bool

-- The three assertions, and the reading of the amount.
unfoldable pub verify : List (Bytes × Bytes) → Result DataRequest
unfolding find_key stol
verify kvs = elim (find_key (codes "uuid") kvs) [
  | none ↦ err missing_field
  | some u ↦ elim (find_key (codes "sz") kvs) [
    | none ↦ err missing_field
    | some sz ↦ elim (find_key (codes "push") kvs) [
      | none ↦ with_amount u false (stol sz)
      | some p ↦ if bytes_eq p (codes "1") then with_amount u true (stol sz) else err bad_push
    ]
  ]
]
  where
    with_amount : Bytes → Bool → Option ℤ → Result DataRequest
    with_amount u p none = err bad_number
    with_amount u p (some n) = ok (record { uuid = u; amount = n; push = p })

unfoldable pub read_request : Bytes → Result DataRequest
unfolding scan_pairs no_duplicates verify
read_request fields = elim (no_duplicates [] (scan_pairs (length fields) false fields)) [
  | err e ↦ err e
  | ok kvs ↦ verify kvs
]

-- rxCommand on what has come, which starts with a brace: the text between the braces, and the number of
-- bytes of the command; `none` if it is not complete yet.
unfoldable pub find_command : Bytes → Option (Bytes × ℕ)
find_command [] = none
find_command (c ∷ s) =
    let fields = take_while (λ d. not (d == b'}')) s in
    if (c == b'{') && ltb (length fields) (length s) then some (fields, length fields + 2) else none

-- An off_t that is handed on as a size_t
unfoldable pub to_size : ℤ → ℕ
to_size (pos n) = n
to_size (negsuc n) = 2 ^ 64 - suc n

-- allowedReadModes and allowedWriteModes
unfoldable pub may_serve : Bool → OpenMode → Bool
unfolding is_read_mode may_fill
may_serve true mode = is_read_mode mode
may_serve false mode = may_fill mode

abbrev pub data_buf_sz : ℕ
data_buf_sz = 10 * 1024 * 1024

-- What has come leads to: `none` if more is waited for, or the request, or the failure that ends the
-- call, and the end of the command.
unfoldable pub parse_request : Bytes → Option (Result DataRequest × ℕ)
unfolding find_command read_request
parse_request came = elim (find_command came) [
  | none ↦ none
  | some (fields, rd_pos) ↦ some (read_request fields, rd_pos)
]

-- buffer[0]=='{'
unfoldable pub starts_command : Bytes → Bool
starts_command [] = false
starts_command (c ∷ s) = c == b'{'

module _ {W : Type 0} (conn : EtdcFd (Store W)) where
  -- One round of the loop that takes the lock of the transfer, and the copy once it is taken. `came` is
  -- the buffer, and rd_pos the end of the command in it.
  unfoldable pub serve_request :
      DataRequest → ℕ → Bytes → EtdState W → EtdState W × Attempt (Result (Unit {0}))
  unfolding find_uuid to_size may_serve
  serve_request q rd_pos came st = elim (find_uuid q.uuid st.transfers) [
    | none ↦ (st, done (err not_initialized))
    | some t ↦ elim t.locked [
      | true ↦ (st, again)
      | false ↦ elim (may_serve q.push t.open_mode) [
        | false ↦ (st, done (err (if q.push then not_for_reading else not_for_writing)))
        | true ↦
            let copied : Store W × Result (Unit {0}) = elim q.push [
              | true ↦ push_n (to_size q.amount) t.fd conn data_buf_sz st.store
              | false ↦ pull_n (to_size q.amount) conn t.fd data_buf_sz rd_pos came st.store
            ] in
            (record st { store = copied.0 }, done copied.1)
      ]
    ]
  ]

  -- `others` is what the other threads do while this one sleeps.
  module _ (others : EtdState W → EtdState W) where
    -- `while( !xfer_lock.owns_lock() )`, and the copy
    unfoldable pub serve_loop :
        ℕ → DataRequest → ℕ → Bytes → EtdState W → EtdState W × Result (Unit {0})
    unfolding serve_request
    serve_loop zero q rd_pos came st = (st, err out_of_fuel)
    serve_loop (suc fuel) q rd_pos came st =
        let (st', r) = serve_request q rd_pos came st in
        elim r [ again ↦ serve_loop fuel q rd_pos came (others st') | done x ↦ (st', x) ]

    -- ETDDataServer::handle: `while( !terminated && curPos<maxNoCmdSz )`. `buf` is the buffer up to
    -- curPos. What comes behind a command and is not used by it is dropped.
    unfoldable pub handle_data : ℕ → Bytes → EtdState W → EtdState W × Result (Unit {0})
    unfolding parse_request serve_loop starts_command
    handle_data zero buf st = (st, err out_of_fuel)
    handle_data (suc fuel) buf st = elim (ltb (length buf) 4096) [
      | false ↦ (st, ok tt)
      | true ↦
          let (s, r) = conn.read (4096 - length buf) st.store in
          elim r [
            | none ↦ (record st { store = s }, err read_hung_up)
            | some bs ↦ elim bs [
              | [] ↦ (record st { store = s }, err read_hung_up)
              | b ∷ more ↦ elim (starts_command (buf ++ b ∷ more)) [
                | false ↦ (record st { store = s }, err no_command)
                | true ↦ elim (parse_request (buf ++ b ∷ more)) [
                  | none ↦ handle_data fuel (buf ++ b ∷ more) (record st { store = s })
                  | some (parsed, rd_pos) ↦ elim parsed [
                    | err e ↦ (record st { store = s }, err e)
                    | ok q ↦
                        let (st', x) =
                          serve_loop fuel q rd_pos (buf ++ b ∷ more) (record st { store = s }) in
                        elim x [ err e ↦ (st', err e) | ok _ ↦ handle_data fuel [] st' ]
                  ]
                ]
              ]
            ]
          ]
    ]
