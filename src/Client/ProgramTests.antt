-- ===== src/Client/ProgramTests.antt =====
-- The whole client, between a remote server with one data channel and its own server.
use etransfer.Common.{
  ◌⊎◌, many_files_one_target, ◌≡◌, refl, true, false, List, [], ◌∷◌, Option, none, some, Bytes, ok,
  err, codes, Failure, inr, arith,
}
use etransfer.Common.Int.{pos}
use etransfer.OpenMode.{new}
use etransfer.State.{SockName}
use etransfer.Server.{is_dev_null}
use etransfer.Server.Listing.{list_path}
use etransfer.Url.{Url, local_url}
use etransfer.Client.{is_dir, transfer_files}
use etransfer.Client.Program.{
  Endpoint, files_to_do, is_any_host, is_dotted_zero, route, routed, copy_files, client_main,
}
use etransfer.Client.Refusals.{Unfit, copy_files_lem}
use etransfer.Client.Routes.{IsRoute, route-IsRoute}
use etransfer.Client.Whole.{Places, Leaves, copy_files_cleans}

record Held : Type 0 where
  at_source : Option Bytes
  at_target : Option Bytes

abbrev held_nothing : Held
held_nothing = record { at_source = none; at_target = none }

abbrev channel : SockName
channel = record { protocol = codes "udt"; host = codes "0.0.0.0"; port = 8008 }

abbrev some_paths : List Bytes
some_paths = codes "/d/a" ∷ codes "/d/sub/" ∷ codes "/d/b" ∷ []

abbrev remote : Endpoint Held
remote = record {
  calls = record {
    request_write = λ _ _ w. (w, ok (codes "s", pos 0));
    request_read = λ _ _ w. (record w { at_source = some (codes "s") }, ok (codes "s", pos 9));
    remove = λ _ w. (record w { at_source = none }, ok true);
  };
  list_path = λ _ _ w. (w, ok some_paths);
  data_channel_addr = λ w. (w, ok (channel ∷ []));
  send_file = λ _ _ _ _ w. (w, ok true);
  get_file = λ _ _ _ _ w. (w, ok true);
}

abbrev own : Endpoint Held
own = record {
  calls = record {
    request_write = λ _ _ w. (record w { at_target = some (codes "t") }, ok (codes "t", pos 0));
    request_read = λ _ _ w. (w, ok (codes "t", pos 9));
    remove = λ _ w. (record w { at_target = none }, ok true);
  };
  list_path = λ path tilde w. list_path (λ _ _ _. []) path tilde w;
  data_channel_addr = λ w. (w, ok []);
  send_file = λ _ _ _ _ w. (w, ok true);
  get_file = λ _ _ _ _ w. (w, ok true);
}

abbrev there : Url
there = record {
  protocol = codes "tcp";
  user = [];
  host = codes "jop83";
  port = 4004;
  path = codes "/d/*";
  is_local = false;
}

-- A pull: the wildcard address of the daemon becomes the host of its URL.
abbrev pulled_channel : SockName
pulled_channel = record { protocol = codes "udt"; host = codes "jop83"; port = 8008 }

pulls :
    route there (local_url (codes "/tmp/")) remote own held_nothing
    ≡ (held_nothing, ok (false, pulled_channel ∷ []))
unfolding route local_url
pulls = refl

route-IsRoute_example :
    IsRoute
      (codes "jop83")
      (local_url (codes "/tmp/")).host
      []
      (channel ∷ [])
      held_nothing
      held_nothing
      (route there (local_url (codes "/tmp/")) remote own held_nothing)
unfolding local_url is_any_host is_dotted_zero
route-IsRoute_example =
    route-IsRoute there (local_url (codes "/tmp/")) remote own held_nothing held_nothing
      held_nothing [] (channel ∷ []) refl refl refl refl

-- Two files do not fit one, and they fit a directory.
two_files : Unfit (codes "/tmp/x") (files_to_do some_paths)
unfolding files_to_do is_dir is_dev_null
two_files = inr (inr (omega arith, refl))

abbrev one_file : Url
one_file = local_url (codes "/tmp/x")

copy_files_lem_example :
    (Unfit (codes "/tmp/x") (files_to_do some_paths)
      × ((e : Failure) × (copy_files there one_file remote own new held_nothing
            ≡ (held_nothing, err e))))
    ⊎ ((Unfit (codes "/tmp/x") (files_to_do some_paths) → ⊥)
        × (copy_files there one_file remote own new held_nothing
            ≡ routed there one_file remote own new
                (files_to_do some_paths)
                (route there one_file remote own held_nothing)))
unfolding local_url
copy_files_lem_example =
    copy_files_lem there one_file remote own new held_nothing held_nothing some_paths refl

fails_with_two :
    copy_files there one_file remote own new held_nothing
    ≡ (held_nothing, err many_files_one_target)
unfolding copy_files local_url
fails_with_two = refl

abbrev places : Places remote own
places = record {
  src_at = λ w. w.at_source;
  dst_at = λ w. w.at_target;
  writing = λ path mode w. (refl, refl);
  reading = λ path have w. (refl, refl);
  freeing_dst = λ u w h. (refl, refl);
  freeing_src = λ u w h. (refl, refl);
  sending = λ u v n cs w. (refl, refl);
  getting = λ u v n cs w. (refl, refl);
  listing = λ path w. (refl, refl);
  asking_dst = λ w. (refl, refl);
  asking_src = λ w. (refl, refl);
}

copies :
    copy_files there (local_url (codes "/tmp/")) remote own new held_nothing ≡ (held_nothing, ok tt)
unfolding copy_files local_url transfer_files
copies = refl

copy_files_cleans_example :
    Leaves places (copy_files there (local_url (codes "/tmp/")) remote own new held_nothing)
copy_files_cleans_example =
    copy_files_cleans places there (local_url (codes "/tmp/")) new held_nothing (refl, refl)

-- "--list"
lists :
    client_main own (λ _ _ _ w. (w, ok remote)) new (there ∷ []) held_nothing
    ≡ (held_nothing, ok some_paths)
unfolding client_main
lists = refl
