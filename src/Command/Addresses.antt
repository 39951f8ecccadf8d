-- ===== src/Command/Addresses.antt =====
-- The addresses between the commas of a send-file command.
use etransfer.Common.{
  ℕ, ◌≡◌, refl, sym, ap, ◌∙◌, Bool, true, false, List, [], ◌∷◌, ◌++◌, Bytes, arith, not, ◌&&◌, ◌==◌,
  append_assoc, append-nil,
}
use etransfer.Text.{is_space}
use etransfer.Proxy.{all_bytes}
use etransfer.Command.{join_commas, not_space, split_commas}
use etransfer.Command.Parts.{is_field}
use etransfer.Command.Parts.{all_bytes-append, field-all}

-- The text of an address has no comma in it and no space.
unfoldable pub address_byte : ℕ → Bool
address_byte c = not_space c && not (c == b',')

unfoldable pub are_addresses : List Bytes → Bool
unfolding address_byte
are_addresses [] = false
are_addresses (a ∷ []) = is_field address_byte a
are_addresses (a ∷ b ∷ rest) = is_field address_byte a && are_addresses (b ∷ rest)

split_commas-last :
    (a : ℕ) (acc w : Bytes)
    → all_bytes address_byte w ≡ true
    → split_commas (a ∷ acc) w ≡ ((a ∷ acc) ++ w) ∷ []
unfolding split_commas all_bytes address_byte
split_commas-last a acc [] h = ap (λ t. t ∷ []) (sym (append-nil (a ∷ acc)))
split_commas-last a acc (c ∷ w) h =
    let e : (c == b',') ≡ false = ground (arith, h) in
    rw e (
      split_commas-last a (acc ++ c ∷ []) w (ground (arith, h))
      ∙ ap (λ t. t ∷ []) (append_assoc (a ∷ acc) (c ∷ []) w))

split_commas-word :
    (a : ℕ) (acc w s : Bytes)
    → all_bytes address_byte w ≡ true
    → split_commas (a ∷ acc) (w ++ b',' ∷ s) ≡ ((a ∷ acc) ++ w) ∷ split_commas [] s
unfolding split_commas all_bytes address_byte
split_commas-word a acc [] s h = ap (λ t. t ∷ split_commas [] s) (sym (append-nil (a ∷ acc)))
split_commas-word a acc (c ∷ w) s h =
    let e : (c == b',') ≡ false = ground (arith, h) in
    rw e (
      split_commas-word a (acc ++ c ∷ []) w s (ground (arith, h))
      ∙ ap (λ t. t ∷ split_commas [] s) (append_assoc (a ∷ acc) (c ∷ []) w))

split_commas-first :
    (a s : Bytes)
    → is_field address_byte a ≡ true
    → split_commas [] (a ++ b',' ∷ s) ≡ a ∷ split_commas [] s
unfolding split_commas all_bytes address_byte
split_commas-first [] s h = absurd (ground (arith, h))
split_commas-first (c ∷ w) s h =
    let e : (c == b',') ≡ false = ground (arith, h) in
    rw (split_commas, e) (split_commas-word c [] w s (ground (arith, h)))

-- The addresses between commas are taken apart as they were joined.
pub split_commas-join_commas :
    (addrs : List Bytes) → are_addresses addrs ≡ true → split_commas [] (join_commas addrs) ≡ addrs
unfolding split_commas all_bytes address_byte are_addresses join_commas
split_commas-join_commas [] h = absurd (ground (arith, h))
split_commas-join_commas ([] ∷ []) h = absurd (ground (arith, h))
split_commas-join_commas ((c ∷ w) ∷ []) h =
    let e : (c == b',') ≡ false = ground (arith, h) in
    rw (split_commas, e) (split_commas-last c [] w (ground (arith, h)))
split_commas-join_commas (a ∷ b ∷ rest) h =
    split_commas-first a (join_commas (b ∷ rest)) (ground (arith, h))
    ∙ ap (λ t. a ∷ t) (split_commas-join_commas (b ∷ rest) (ground (arith, h)))

all_visible : (w : Bytes) → all_bytes address_byte w ≡ true → all_bytes not_space w ≡ true
unfolding all_bytes address_byte
all_visible [] h = refl
all_visible (c ∷ w) h = ground (arith, h, all_visible w)

field-visible : (a : Bytes) → is_field address_byte a ≡ true → is_field not_space a ≡ true
unfolding all_bytes address_byte
field-visible [] h = absurd (ground (arith, h))
field-visible (c ∷ w) h = ground (arith, h, all_visible w)

field-append :
    (p : ℕ → Bool) (a r : Bytes)
    → is_field p a ≡ true
    → all_bytes p r ≡ true
    → is_field p (a ++ r) ≡ true
unfolding all_bytes
field-append p [] r h k = absurd (ground (arith, h))
field-append p (c ∷ w) r h k = ground (arith, h, all_bytes-append p w r (ground (arith, h)) k)

pub join_commas-field :
    (addrs : List Bytes)
    → are_addresses addrs ≡ true
    → is_field not_space (join_commas addrs) ≡ true
unfolding are_addresses join_commas all_bytes is_space
join_commas-field [] h = absurd (ground (arith, h))
join_commas-field (a ∷ []) h = field-visible a h
join_commas-field (a ∷ b ∷ rest) h =
    let joined = join_commas-field (b ∷ rest) (ground (arith, h)) in
    field-append not_space a (b',' ∷ join_commas (b ∷ rest)) (field-visible a (ground (arith, h)))
      (field-all not_space (join_commas (b ∷ rest)) joined)
