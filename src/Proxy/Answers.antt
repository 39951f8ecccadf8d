-- ===== src/Proxy/Answers.antt =====
-- What the requests make of the replies that ETDServerWrapper::handle writes.
use etransfer.Common.{
  ℕ, suc, ◌<◌, ◌^◌, ◌≡◌, refl, inl, inr, ◌⊎◌, true, List, [], ◌∷◌, ◌++◌, Option, none, some, Bytes,
  ok, err, codes, arith, append_assoc, append-nil, leb, refused, map,
}
use etransfer.Common.Int.{ℤ, pos, negsuc}
use etransfer.Text.{drop_while, is_space, is_digit, to_upper, equal_ci}
use etransfer.Exchange.{print_ℕ}
use etransfer.Exchange.Decimal.{digits_value-print_ℕ}
use etransfer.State.{SockName}
use etransfer.Wire.{reply_lines, list_step, list_replies, match_reply, reply_info}
use etransfer.Wire.Listing.{is_entry, are_entries, list_step-entry}
use etransfer.Address.{print_sockname, decode_data_addr}
use etransfer.Command.{print_ℤ}
use etransfer.Command.Parts.{is_field}
use etransfer.Command.Numbers.{print_ℕ-field, off_of-print_ℕ}
use etransfer.Proxy.{
  Answer, no_answer, match_uuid, match_have, match_remain, is_number, is_signed, is_word, all_bytes,
  off_of, strip_prefix_ci, status_step, add_position, add_uuid, answer_step, one_line_result,
}
use etransfer.Proxy.Requests.{push_decoded, addr_step}
use etransfer.Wrapper.{answer_replies}

number-field : (s : Bytes) → is_field is_digit s ≡ true → is_number s ≡ true
unfolding is_number all_bytes
number-field [] h = absurd (ground (arith, h))
number-field (c ∷ s) h = ground (arith, h)

signed-field : (s : Bytes) → is_field is_digit s ≡ true → is_signed s ≡ true
unfolding is_signed is_number all_bytes is_digit
signed-field [] h = absurd (ground (arith, h))
signed-field (c ∷ s) h = ground (arith, h)

-- A number that string2off_t can hold, and that is written with a sign only where the reply may.
abbrev pub InOffT : ℤ → Type 0
InOffT (pos n) = n < 2 ^ 63
InOffT (negsuc n) = n < 2 ^ 63

off_of-print_ℤ : (z : ℤ) → InOffT z → off_of (print_ℤ z) ≡ some z
unfolding print_ℤ off_of
off_of-print_ℤ (pos n) h = off_of-print_ℕ n h
off_of-print_ℤ (negsuc n) h =
    let small : leb (suc n) (2 ^ 63) ≡ true = ground (arith, h) in
    rw (off_of, digits_value-print_ℕ (suc n), small) refl

pub match_remain-print_ℤ : (z : ℤ) → match_remain (codes "Remain:" ++ print_ℤ z) ≡ some (print_ℤ z)
unfolding match_remain strip_prefix_ci equal_ci to_upper print_ℤ is_signed
match_remain-print_ℤ (pos n) = rw (match_remain, signed-field (print_ℕ n) (print_ℕ-field n)) refl
match_remain-print_ℤ (negsuc n) =
    rw (match_remain, number-field (print_ℕ (suc n)) (print_ℕ-field (suc n))) refl

pub match_have-print_ℤ :
    (n : ℕ) → match_have (codes "AlreadyHave:" ++ print_ℤ (pos n)) ≡ some (print_ℤ (pos n))
unfolding match_have strip_prefix_ci equal_ci to_upper print_ℤ
match_have-print_ℤ n = rw (match_have, number-field (print_ℕ n) (print_ℕ-field n)) refl

match_uuid-word : (u : Bytes) → is_word u ≡ true → match_uuid (codes "UUID:" ++ u) ≡ some u
unfolding match_uuid strip_prefix_ci equal_ci to_upper
match_uuid-word u h = rw (match_uuid, h) refl

match_position-ok :
    (match_position : Bytes → Option Bytes)
    → match_position (codes "OK") ≡ none
    → answer_step match_position no_answer (codes "OK")
      ≡ ok (true, record no_answer { status = codes "OK" })
unfolding answer_step match_uuid strip_prefix_ci equal_ci to_upper status_step match_reply
    reply_info
match_position-ok m h = rw (answer_step, h) refl

-- The three lines of a success, for either name of the number.
pub answers :
    (match_position : Bytes → Option Bytes) (name : Bytes) (u : Bytes) (z : ℤ)
    → match_uuid (name ++ print_ℤ z) ≡ none
    → match_position (name ++ print_ℤ z) ≡ some (print_ℤ z)
    → match_position (codes "OK") ≡ none
    → is_word u ≡ true
    → InOffT z
    → reply_lines (answer_step match_position) no_answer (answer_replies name (u, z))
      ≡ ok (true, record { status = codes "OK"; info = []; position = some z; uuid = some u })
unfolding reply_lines answer_step answer_replies add_position add_uuid status_step match_reply
    reply_info match_uuid strip_prefix_ci equal_ci to_upper
answers match_position name u z no_uuid position no_number word range =
    rw (reply_lines, answer_step, no_uuid, position, off_of-print_ℤ z range)
      (rw (match_uuid-word u word) (rw no_number refl))

-- The reply to a failure, whatever its text.
abbrev pub error_line : Bytes → Bytes
error_line text = codes "ERR " ++ text

abbrev pub error_answer : Bytes → Answer
error_answer text = record no_answer { status = codes "ERR"; info = drop_while is_space text }

pub answer_step-error :
    (match_position : Bytes → Option Bytes) (text : Bytes)
    → match_position (error_line text) ≡ none
    → answer_step match_position no_answer (error_line text) ≡ ok (true, error_answer text)
unfolding answer_step match_uuid strip_prefix_ci equal_ci to_upper status_step match_reply
    reply_info is_space
answer_step-error match_position text h = rw (answer_step, h) refl

pub list_step-error :
    (text : Bytes) → list_step (record { state = []; paths = [] }) (error_line text) ≡ err refused
unfolding list_step match_reply reply_info is_space equal_ci to_upper
list_step-error text = refl

pub addr_step-error :
    (text : Bytes) → addr_step (record { state = []; addrs = [] }) (error_line text) ≡ err refused
unfolding addr_step list_step match_reply reply_info is_space equal_ci to_upper
addr_step-error text = refl

pub one_line_result-error : (text : Bytes) → one_line_result (error_line text) ≡ err refused
unfolding one_line_result match_reply reply_info is_space equal_ci to_upper
one_line_result-error text = refl

-- Addresses that decode_data_addr reads as they are written, in lines of their own.
abbrev pub Readable : List SockName → Type 0
Readable [] = Unit
Readable (a ∷ addrs) =
    (decode_data_addr (print_sockname a) ≡ some a)
    × (is_entry (print_sockname a) ≡ true)
    × Readable addrs

pub Readable-entries :
    (addrs : List SockName) → Readable addrs → are_entries (map print_sockname addrs) ≡ true
Readable-entries [] h = refl
Readable-entries (a ∷ addrs) h = ground (arith, h.1, Readable-entries addrs h.2)

pub reply_lines-addresses :
    (state : Bytes) (rv addrs : List SockName)
    → (state ≡ []) ⊎ (state ≡ codes "OK")
    → Readable addrs
    → reply_lines addr_step
        (record { state = state; addrs = rv })
        (list_replies (map print_sockname addrs))
      ≡ ok (true, record { state = codes "OK"; addrs = rv ++ addrs })
unfolding reply_lines list_replies addr_step push_decoded list_step match_reply reply_info
reply_lines-addresses state rv [] (inl e) h = rw (e, append-nil rv) refl
reply_lines-addresses state rv [] (inr e) h = rw (e, append-nil rv) refl
reply_lines-addresses state rv (a ∷ addrs) o h =
    rw (reply_lines, addr_step, list_step-entry state [] (print_sockname a) o h.1)
      (rw h.0 (
        rw
          (
            reply_lines-addresses (codes "OK") (rv ++ a ∷ []) addrs (inr refl) h.2,
            append_assoc rv (a ∷ []) addrs,
          )
          refl))
