-- ===== src/Wire/Listing.antt =====
-- The paths that the server lists are the ones that the client gets.
use etransfer.Common.{
  ◌≡◌, refl, ◌⊎◌, inl, inr, Bool, true, false, List, [], ◌∷◌, ◌++◌, ok, Bytes, codes, arith,
  append_assoc, append-nil, not, ◌&&◌,
}
use etransfer.Text.{is_space}
use etransfer.Wire.{list_step, reply_lines, list_replies, is_newline}
use etransfer.Wire.Lines.{are_lines, no_newline}

-- A path that the reply can carry: it is not empty, starts with no space, and holds no newline.
abbrev pub is_entry : Bytes → Bool
is_entry [] = false
is_entry (c ∷ s) = not (is_space c) && no_newline (c ∷ s)

abbrev pub are_entries : List Bytes → Bool
are_entries [] = true
are_entries (e ∷ es) = is_entry e && are_entries es

list_replies-lines : (es : List Bytes) → are_entries es ≡ true → are_lines (list_replies es) ≡ true
unfolding list_replies is_newline
list_replies-lines [] h = refl
list_replies-lines ([] ∷ es) h = absurd (ground (arith, h))
list_replies-lines ((c ∷ s) ∷ es) h = ground (arith, h, list_replies-lines es)

pub list_step-entry :
    (state : Bytes) (rv : List Bytes) (e : Bytes)
    → (state ≡ []) ⊎ (state ≡ codes "OK")
    → is_entry e ≡ true
    → list_step (record { state = state; paths = rv }) (codes "OK " ++ e)
      ≡ ok (false, record { state = codes "OK"; paths = rv ++ e ∷ [] })
unfolding list_step
list_step-entry state rv [] h v = absurd (ground (arith, v))
list_step-entry state rv (c ∷ s) (inl e) v =
    let visible : is_space c ≡ false = ground (arith, v) in rw (e, visible) refl
list_step-entry state rv (c ∷ s) (inr e) v =
    let visible : is_space c ≡ false = ground (arith, v) in rw (e, visible) refl

-- What the client makes of the lines of a reply to a list command.
pub reply_lines-list_replies :
    (state : Bytes) (rv es : List Bytes)
    → (state ≡ []) ⊎ (state ≡ codes "OK")
    → are_entries es ≡ true
    → reply_lines list_step (record { state = state; paths = rv }) (list_replies es)
      ≡ ok (true, record { state = codes "OK"; paths = rv ++ es })
unfolding reply_lines list_replies list_step
reply_lines-list_replies state rv [] (inl e) h = rw (e, append-nil rv) refl
reply_lines-list_replies state rv [] (inr e) h = rw (e, append-nil rv) refl
reply_lines-list_replies state rv (e ∷ es) o h =
    rw (reply_lines, list_step-entry state rv e o (ground (arith, h)))
      (rw
        (
          reply_lines-list_replies (codes "OK") (rv ++ e ∷ []) es (inr refl) (ground (arith, h)),
          append_assoc rv (e ∷ []) es,
        )
        refl)
