-- ===== src/Url/Local.antt =====
-- An absolute path on the command line is local.
use etransfer.Common.{
  true, ◌∷◌, none, Bytes, ok, take, ◌≡◌, refl, Bool-cases, inl, inr, length, ◌==◌,
}
use etransfer.Text.{is_digit, equal_ci, stricmp, to_upper}
use etransfer.Address.{is_alnum, is_host_byte}
use etransfer.Url.{
  is_url_host_byte, is_path, protocol_part, user_part, url_host, url_port, path_part, remote_part,
  match_remote, local_url, str2url,
}

no_protocol : (s : Bytes) → protocol_part (b'/' ∷ s) ≡ none
unfolding protocol_part stricmp equal_ci to_upper
no_protocol s = elim (Bool-cases (length (take 3 (b'/' ∷ s)) == 3)) [
  | inl e ↦ rw (e) refl
  | inr e ↦ rw (e) refl
]

no_remote : (s : Bytes) → match_remote (b'/' ∷ s) ≡ none
unfolding match_remote remote_part user_part url_host url_port path_part is_url_host_byte
    is_host_byte is_alnum is_digit
no_remote s = rw (match_remote, no_protocol s) refl

-- A line that starts with a slash is a local path, whatever else it holds: colons, at signs and
-- protocols are bytes of the path.
pub str2url-slash :
    (s : Bytes) → is_path (b'/' ∷ s) ≡ true → str2url (b'/' ∷ s) ≡ ok (local_url (b'/' ∷ s))
unfolding str2url
str2url-slash s h = rw (str2url, no_remote s, h) refl
