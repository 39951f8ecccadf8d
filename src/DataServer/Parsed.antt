-- ===== src/DataServer/Parsed.antt =====
-- The commands that sendFile and getFile write, in front of the bytes that follow them.
use etransfer.Common.{
  ℕ, ◌+◌, ◌^◌, ◌<◌, ◌≡◌, refl, sym, ap, ◌∙◌, true, false, ◌∷◌, ◌++◌, some, Bytes, codes, ok, arith,
  append_assoc, length, length-append,
}
use etransfer.Common.Int.{pos}
use etransfer.Exchange.{print_ℕ, send_header, get_header}
use etransfer.Proxy.{all_bytes}
use etransfer.Command.Parts.{is_field}
use etransfer.Command.Parts.{field-all, all_bytes-append}
use etransfer.DataServer.{DataRequest, read_request, parse_request}
use etransfer.DataServer.Header.{
  find_command-fields, send_fields, get_fields, send_request, get_request,
}
use etransfer.KeyValue.Values.{is_plain, all_bytes-weaken, plain-no_brace, no_brace, number-plain}

fields-no_brace :
    (u s : Bytes) (n : ℕ)
    → is_field is_plain u ≡ true
    → all_bytes no_brace s ≡ true
    → all_bytes no_brace (u ++ (s ++ print_ℕ n)) ≡ true
fields-no_brace u s n h k =
    let clean = λ (t : Bytes) (f : is_field is_plain t ≡ true).
      all_bytes-weaken is_plain no_brace plain-no_brace t (field-all is_plain t f) in
    all_bytes-append no_brace u (s ++ print_ℕ n) (clean u h)
      (all_bytes-append no_brace s (print_ℕ n) k (clean (print_ℕ n) (number-plain n)))

-- A header with the two parts of its text around the Uuid.
around :
    (u s t behind : Bytes)
    → (u ++ (s ++ (t ++ codes "}"))) ++ behind ≡ (u ++ (s ++ t)) ++ b'}' ∷ behind
around u s t behind =
    append_assoc u (s ++ (t ++ codes "}")) behind
    ∙ (ap (◌++◌ u) (
          append_assoc s (t ++ codes "}") behind
          ∙ (ap (◌++◌ s) (append_assoc t (codes "}") behind)
              ∙ sym (append_assoc s t (b'}' ∷ behind))))
        ∙ sym (append_assoc u (s ++ t) (b'}' ∷ behind)))

parsed :
    (fields behind : Bytes) (q : DataRequest)
    → all_bytes no_brace fields ≡ true
    → read_request fields ≡ ok q
    → parse_request (b'{' ∷ (fields ++ b'}' ∷ behind)) ≡ some (ok q, length fields + 2)
unfolding parse_request
parsed fields behind q h e = rw (parse_request, find_command-fields fields behind h) (rw e refl)

parse_request-send_header :
    (u behind : Bytes) (n : ℕ)
    → is_field is_plain u ≡ true
    → n < 2 ^ 63
    → parse_request (send_header u n ++ behind)
      ≡ some (ok (record { uuid = u; amount = pos n; push = false }), length (send_header u n))
unfolding send_header all_bytes
parse_request-send_header u behind n h small =
    let t = print_ℕ n in
    let s = codes ", sz:" in
    let text : send_header u n ++ behind ≡ b'{' ∷ (send_fields u n ++ b'}' ∷ behind) =
      ap (λ x. codes "{ uuid:" ++ x) (around u s t behind) in
    let long : length (send_fields u n) + 2 ≡ length (send_header u n) = omega (
      arith,
      length-append u (s ++ t),
      length-append s t,
      length-append u (s ++ (t ++ codes "}")),
      length-append s (t ++ codes "}"),
      length-append t (codes "}"),
    ) in
    rw (text, sym long)
      (parsed (send_fields u n) behind (record { uuid = u; amount = pos n; push = false })
        (fields-no_brace u s n h refl) (send_request u n h small))

parse_request-get_header :
    (u behind : Bytes) (n : ℕ)
    → is_field is_plain u ≡ true
    → n < 2 ^ 63
    → parse_request (get_header u n ++ behind)
      ≡ some (ok (record { uuid = u; amount = pos n; push = true }), length (get_header u n))
unfolding get_header all_bytes
parse_request-get_header u behind n h small =
    let t = print_ℕ n in
    let s = codes ", push:1, sz:" in
    let text : get_header u n ++ behind ≡ b'{' ∷ (get_fields u n ++ b'}' ∷ behind) =
      ap (λ x. codes "{ uuid:" ++ x) (around u s t behind) in
    let long : length (get_fields u n) + 2 ≡ length (get_header u n) = omega (
      arith,
      length-append u (s ++ t),
      length-append s t,
      length-append u (s ++ (t ++ codes "}")),
      length-append s (t ++ codes "}"),
      length-append t (codes "}"),
    ) in
    rw (text, sym long)
      (parsed (get_fields u n) behind (record { uuid = u; amount = pos n; push = true })
        (fields-no_brace u s n h refl) (get_request u n h small))

-- The data server understands the commands that sendFile and getFile write: a command that is whole, with
-- whatever stands behind it, is found up to its end, and asks for the transfer and the number of bytes
-- that were written, to push them to the client only where getFile asks. The Uuid is one without spaces,
-- commas, braces, quotes and backslashes, and the number is an off_t.
pub parse_request-header :
    (u behind : Bytes) (n : ℕ)
    → is_field is_plain u ≡ true
    → n < 2 ^ 63
    → (parse_request (send_header u n ++ behind)
        ≡ some (ok (record { uuid = u; amount = pos n; push = false }), length (send_header u n)))
      × (parse_request (get_header u n ++ behind)
          ≡ some (ok (record { uuid = u; amount = pos n; push = true }), length (get_header u n)))
parse_request-header u behind n h small =
    (parse_request-send_header u behind n h small, parse_request-get_header u behind n h small)
