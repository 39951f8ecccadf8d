-- ===== src/Path/Tests.antt =====
-- Paths as they come in practice.
use etransfer.Common.{◌≡◌, ◌≢◌, refl, true, false, [], some, codes, arith}
use etransfer.Path.{slash, unparent, unparent_loop, normalize_path, has_slash, dirname, basename}
use etransfer.Path.Loop.{unparent_loop_fixed}
use etransfer.Path.Slashes.{single_slashes, is_absolute, normalize_path_form}
use etransfer.Path.Tidy.{normalize_path-tidy}
use etransfer.Path.Names.{dirname-basename}

normalize_mixed : normalize_path (codes "/a//b/./c/../d/../../e") ≡ codes "/a/e"
unfolding normalize_path
normalize_mixed = refl

normalize_root : normalize_path (codes "/../../etc/") ≡ codes "/etc/"
unfolding normalize_path
normalize_root = refl

normalize_empty : normalize_path [] ≡ codes "."
unfolding normalize_path
normalize_empty = refl

dirname_usr : dirname (codes "/usr/lib") ≡ codes "/usr/"
unfolding dirname
dirname_usr = refl

basename_usr : basename (codes "/usr/") ≡ some (codes "usr")
unfolding basename
basename_usr = refl

unparent_loop_fixed_example :
    unparent 0 (unparent_loop 9 (codes "/a/b/../.")) ≡ unparent_loop 9 (codes "/a/b/../.")
unparent_loop_fixed_example = unparent_loop_fixed 9 (codes "/a/b/../.") (omega arith)

normalize_path_form_example :
    (normalize_path (codes "//a/./b") ≢ [])
    × (single_slashes false (normalize_path (codes "//a/./b")) ≡ true)
    × (is_absolute (normalize_path (codes "//a/./b")) ≡ true)
normalize_path_form_example = normalize_path_form (codes "//a/./b")

normalize_path-tidy_example : normalize_path (codes "/mnt/data/eg098a") ≡ codes "/mnt/data/eg098a"
normalize_path-tidy_example = normalize_path-tidy slash (codes "mnt/data/eg098a") refl

dirname-basename_example :
    (basename (codes "/usr/lib") ≡ some (codes "lib"))
    × (dirname (codes "/usr/lib") ≡ codes "/usr/")
dirname-basename_example =
    dirname-basename (codes "/usr") b'l' (codes "ib") (unfold has_slash in refl)
