-- ===== src/Wire/Tests.antt =====
-- Replies as they come over a connection.
use etransfer.Common.{◌≡◌, refl, List, [], ◌∷◌, ◌++◌, Bytes, codes, some, none, err, changed_mind}
use etransfer.Wire.{get_replies, match_reply, reply_lines, list_step}

abbrev two_files : List Bytes
two_files = codes "/a b" ∷ codes "/c/" ∷ []

part_of_line : get_replies (codes "OK /a" ++ 13 ∷ 10 ∷ codes "OK /") ≡ (codes "OK /a" ∷ [], 7)
unfolding get_replies
part_of_line = refl

small_letters : match_reply (codes "ok fine") ≡ some (codes "ok", codes "fine")
unfolding match_reply
small_letters = refl

no_reply : match_reply (codes "OKAY") ≡ none
unfolding match_reply
no_reply = refl

late_error :
    reply_lines list_step (record { state = []; paths = [] }) (codes "OK /a" ∷ codes "ERR no" ∷ [])
    ≡ err changed_mind
unfolding reply_lines list_step
late_error = refl
