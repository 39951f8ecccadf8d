-- ===== src/Proxy.antt =====
-- src/etdc_etdserver.cc: ETDProxy, which looks like a server and asks one over a connection: what each
-- request sends, and how it reads the reply.
pub mod Chunks
pub mod Answers
pub mod Keeps
pub mod OneLine
pub mod Requests
use etransfer.Common.{
  ℕ, zero, suc, ◌+◌, ◌-◌, ◌^◌, Bool, true, false, List, [], ◌∷◌, ◌++◌, Option, none, some, Bytes,
  codes, Result, ok, err, out_of_fuel, read_hung_up, short_write, invalid_reply, refused,
  unconsumed_bytes, missing_field, duplicate_field, bad_number, not_one_line, length, drop, leb,
  ltb, bytes_eq, not, ◌==◌, ◌&&◌, if◌then◌else◌,
}
use etransfer.Common.Int.{ℤ, pos, negsuc}
use etransfer.Text.{is_space, is_digit, equal_ci}
use etransfer.Fd.{EtdcFd}
use etransfer.DevZero.{digits_value}
use etransfer.Wire.{match_reply, get_replies, reply_lines, Listed, list_step}

-- Whether each byte of a text is of a kind.
unfoldable pub all_bytes : (ℕ → Bool) → Bytes → Bool
all_bytes p [] = true
all_bytes p (c ∷ s) = p c && all_bytes p s

-- The text behind a prefix that is compared without regard to case.
unfoldable pub strip_prefix_ci : Bytes → Bytes → Option Bytes
unfolding equal_ci
strip_prefix_ci [] s = some s
strip_prefix_ci (p ∷ ps) [] = none
strip_prefix_ci (p ∷ ps) (c ∷ s) = if equal_ci (p ∷ []) (c ∷ []) then strip_prefix_ci ps s else none

-- "(\S+)$" and "([0-9]+)$"
unfoldable pub is_word : Bytes → Bool
unfolding all_bytes is_space
is_word [] = false
is_word (c ∷ s) = all_bytes (λ d. not (is_space d)) (c ∷ s)

unfoldable pub is_number : Bytes → Bool
unfolding all_bytes is_digit
is_number [] = false
is_number (c ∷ s) = all_bytes is_digit (c ∷ s)

-- string2off_t on a text that is a number, or one with a minus: std::stol, with its range.
unfoldable pub off_of : Bytes → Option ℤ
unfolding digits_value
off_of [] = some (pos 0)
off_of (c ∷ s) =
    let below = digits_value 0 s in
    let above = digits_value 0 (c ∷ s) in
    if c == b'-'
    then if leb below (2 ^ 63) then some (elim below [ zero ↦ pos 0 | suc n ↦ negsuc n ]) else none
    else if ltb above (2 ^ 63)
    then some (pos above)
    else none

-- `status_s`, `info`, and the two results of requestFileWrite and requestFileRead.
pub record Answer : Type 0 where
  pub status : Bytes
  pub info : Bytes
  pub position : Option ℤ
  pub uuid : Option Bytes

abbrev pub no_answer : Answer
no_answer = record { status = []; info = []; position = none; uuid = none }

-- rxUUID, rxAlreadyHave and rxRemain: what stands behind the name.
unfoldable pub match_uuid : Bytes → Option Bytes
unfolding strip_prefix_ci is_word
match_uuid line = elim (strip_prefix_ci (codes "UUID:") line) [
  | none ↦ none
  | some word ↦ if is_word word then some word else none
]

unfoldable pub match_have : Bytes → Option Bytes
unfolding strip_prefix_ci is_number
match_have line = elim (strip_prefix_ci (codes "AlreadyHave:") line) [
  | none ↦ none
  | some n ↦ if is_number n then some n else none
]

unfoldable pub is_signed : Bytes → Bool
unfolding is_number
is_signed [] = false
is_signed (c ∷ s) = if c == b'-' then is_number s else is_number (c ∷ s)

unfoldable pub match_remain : Bytes → Option Bytes
unfolding strip_prefix_ci is_signed
match_remain line = elim (strip_prefix_ci (codes "Remain:") line) [
  | none ↦ none
  | some n ↦ if is_signed n then some n else none
]

-- The last two branches of the loop: a reply ends it, anything else is refused.
unfoldable pub status_step : Answer → Bytes → Result (Bool × Answer)
unfolding match_reply
status_step a line = elim (match_reply line) [
  | none ↦ err invalid_reply
  | some (status, info) ↦ ok (true, record a { status = status; info = info })
]

unfoldable pub add_position : Answer → Bytes → Result (Bool × Answer)
unfolding off_of
add_position a n = elim a.position [
  | some _ ↦ err duplicate_field
  | none ↦ elim (off_of n) [
    | none ↦ err bad_number
    | some p ↦ ok (false, record a { position = some p })
  ]
]

unfoldable pub add_uuid : Answer → Bytes → Result (Bool × Answer)
add_uuid a word = elim a.uuid [
  | some _ ↦ err duplicate_field
  | none ↦ ok (false, record a { uuid = some word })
]

-- The body of the loop over lines of ETDProxy::requestFileWrite, and of requestFileRead; they differ
-- in the name of the number.
unfoldable pub answer_step : (Bytes → Option Bytes) → Answer → Bytes → Result (Bool × Answer)
unfolding match_uuid add_uuid add_position status_step
answer_step match_position a line = elim (match_uuid line) [
  | some word ↦ add_uuid a word
  | none ↦ elim (match_position line) [ some n ↦ add_position a n | none ↦ status_step a line ]
]

-- What stands behind the read loop of the two.
unfoldable pub answer_result : Answer → Result (Bytes × ℤ)
answer_result a =
    if bytes_eq a.status (codes "OK")
    then elim a.position [
      | none ↦ err missing_field
      | some p ↦ elim a.uuid [ none ↦ err missing_field | some u ↦ ok (u, p) ]
    ]
    else err refused

-- What a reply of one line means to those requests that give nothing back.
unfoldable pub one_line_result : Bytes → Result (Unit {0})
unfolding match_reply
one_line_result line = elim (match_reply line) [
  | none ↦ err invalid_reply
  | some (status, info) ↦ if bytes_eq status (codes "OK") then ok tt else err refused
]

module _ {W : Type 0} where
  -- Sends one command: the asserted write.
  unfoldable pub send_command : EtdcFd W → Bytes → W → W × Result (Unit {0})
  send_command conn msg w =
      let (w', r) = conn.write msg w in
      elim r [
        | none ↦ (w', err short_write)
        | some k ↦ if k == length msg then (w', ok tt) else (w', err short_write)
      ]

  module _ {S : Type 0} (step : S → Bytes → Result (Bool × S)) (buf_sz : ℕ) (conn : EtdcFd W) where
    -- What the loop does with the bytes `came`, once it has read more: the lines in them, and the rest,
    -- which is moved to the front of the buffer. `again` is the loop.
    unfoldable pub take_lines :
        (S → Bytes → W → W × Result (S × Bytes)) → S → Bytes → W → W × Result (S × Bytes)
    take_lines again s came w =
        let (lines, end) = get_replies came in
        elim (reply_lines step s lines) [
          | err e ↦ (w, err e)
          | ok (true, s') ↦ (w, ok (s', drop end came))
          | ok (false, s') ↦ again s' (drop end came) w
        ]

    -- `while( !finished && curPos<bufSz )`. `buf` is what is left of the buffer, up to curPos; it comes
    -- back with the state that the lines were folded into.
    unfoldable pub reply_loop : ℕ → S → Bytes → W → W × Result (S × Bytes)
    unfolding take_lines
    reply_loop zero s buf w = (w, err out_of_fuel)
    reply_loop (suc fuel) s buf w = elim (ltb (length buf) buf_sz) [
      | false ↦ (w, ok (s, buf))
      | true ↦
          let (w', r) = conn.read (buf_sz - length buf) w in
          elim r [
            | none ↦ (w', err read_hung_up)
            | some bs ↦ elim bs [
              | [] ↦ (w', err read_hung_up)
              | b ∷ more ↦ take_lines (reply_loop fuel) s (buf ++ b ∷ more) w'
            ]
          ]
    ]

    -- The loop, and the assertion behind it that all bytes are used up.
    unfoldable pub read_reply : ℕ → S → W → W × Result S
    unfolding reply_loop
    read_reply fuel s w =
        let (w', r) = reply_loop fuel s [] w in
        elim r [
          | err e ↦ (w', err e)
          | ok (s', buf) ↦ elim buf [ [] ↦ (w', ok s') | _ ∷ _ ↦ (w', err unconsumed_bytes) ]
        ]

  -- The loop of the requests whose reply is one line. It never moves the buffer; a full buffer with no
  -- line in it ends the loop too.
  unfoldable pub one_line_loop : ℕ → ℕ → EtdcFd W → Bytes → W → W × Result (Unit {0})
  unfolding get_replies one_line_result
  one_line_loop zero buf_sz conn buf w = (w, err out_of_fuel)
  one_line_loop (suc fuel) buf_sz conn buf w = elim (ltb (length buf) buf_sz) [
    | false ↦ (w, ok tt)
    | true ↦
        let (w', r) = conn.read (buf_sz - length buf) w in
        elim r [
          | none ↦ (w', err read_hung_up)
          | some bs ↦ elim bs [
            | [] ↦ (w', err read_hung_up)
            | b ∷ more ↦ elim (get_replies (buf ++ b ∷ more)).0 [
              | [] ↦ one_line_loop fuel buf_sz conn (buf ++ b ∷ more) w'
              | line ∷ lines ↦ elim lines [
                | _ ∷ _ ↦ (w', err not_one_line)
                | [] ↦ (w', one_line_result line)
              ]
            ]
          ]
        ]
  ]
