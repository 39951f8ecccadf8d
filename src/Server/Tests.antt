-- ===== src/Server/Tests.antt =====
-- Two servers on one state, with an operating system whose files are all 7 bytes long.
use etransfer.Common.{
  ℕ, suc, ◌≡◌, refl, true, false, [], none, some, Bytes, codes, ok, err, length, path_in_use, Bool,
  List, ◌∷◌,
}
use etransfer.Common.Int.{pos}
use etransfer.OpenMode.{new, read, resume}
use etransfer.Path.{normalize_path}
use etransfer.Files.{Os}
use etransfer.State.{EtdState, find_uuid}
use etransfer.Server.{
  request_file_write, request_file_read, remove_uuid, is_write_mode, path_present, may_read,
}
use etransfer.Server.Listing.{list_path}
use etransfer.Server.Exclusive.{exclusive}
use etransfer.Server.Requests.{Grants, request_file_write_lem, request_file_read_lem}
use etransfer.Server.Reach.{Steps, stay, more, by_read, Steps-exclusive}
use etransfer.Server.Removal.{Removes, remove-request_file_write, remove-request_file_read}

-- The world counts the calls of close.
abbrev toy : Os ℕ
toy = record {
  mkdir = λ _ w. (w, true);
  open_at = λ _ _ w. (w, some 3);
  read = λ _ _ w. (w, some []);
  write = λ _ bs w. (w, some (length bs));
  lseek = λ _ _ _ w. (w, some (pos 7));
  close = λ _ w. suc w;
  uninitialized = λ _ _. [];
}

abbrev empty : EtdState ℕ
empty = record { transfers = []; data_addrs = []; store = record { world = 0; devices = [] } }

abbrev one : Bytes
one = codes "1"

abbrev two : Bytes
two = codes "2"

abbrev file : Bytes
file = codes "/a/b"

-- The first server writes the file, or reads it.
abbrev writing : EtdState ℕ
writing = (request_file_write toy one file new empty).0

abbrev reading : EtdState ℕ
reading = (request_file_read toy one file (pos 2) empty).0

file_size : (request_file_write toy one file new empty).1 ≡ ok (one, pos 7)
unfolding request_file_write
file_size = refl

file_left : (request_file_read toy one file (pos 2) empty).1 ≡ ok (one, pos 5)
unfolding request_file_read
file_left = refl

no_second_writer : (request_file_write toy two (codes "/a//b") resume writing).1 ≡ err path_in_use
unfolding request_file_write
no_second_writer = refl

no_reader : (request_file_read toy two file (pos 0) writing).1 ≡ err path_in_use
unfolding request_file_write request_file_read
no_reader = refl

second_reader : (request_file_read toy two file (pos 0) reading).1 ≡ ok (two, pos 7)
unfolding request_file_read
second_reader = refl

-- A dot that normalize_path keeps lets a second writer in.
dot_writer : (request_file_write toy two (codes "/././a/b") resume writing).1 ≡ ok (two, pos 7)
unfolding request_file_write
dot_writer = refl

closed_twice : (remove_uuid one one writing).0.store.world ≡ 2
unfolding request_file_write remove_uuid
closed_twice = refl

abbrev both : Steps toy empty (request_file_read toy two file (pos 0) reading).0
both = more (more stay (by_read one file (pos 2))) (by_read two file (pos 0))

Steps-exclusive_example :
    exclusive (request_file_read toy two file (pos 0) reading).0.transfers ≡ true
Steps-exclusive_example = Steps-exclusive toy both refl

request_file_write_lem_example :
    Grants
      ((find_uuid one empty.transfers ≡ none)
        × (is_write_mode new ≡ true)
        × (path_present (normalize_path file) empty.transfers ≡ false))
      one
      (normalize_path file)
      new
      empty.transfers
      (request_file_write toy one file new empty)
request_file_write_lem_example = request_file_write_lem toy one file new empty

request_file_read_lem_example :
    Grants
      ((find_uuid two reading.transfers ≡ none)
        × (may_read (normalize_path file) reading.transfers ≡ true))
      two
      (normalize_path file)
      read
      reading.transfers
      (request_file_read toy two file (pos 0) reading)
request_file_read_lem_example = request_file_read_lem toy two file (pos 0) reading

remove-request_file_write_example :
    Removes one (normalize_path file) [] writing (remove_uuid one one writing)
unfolding request_file_write
remove-request_file_write_example =
    remove-request_file_write toy one file new empty one (pos 7) refl

remove-request_file_read_example :
    Removes one (normalize_path file) [] reading (remove_uuid one one reading)
unfolding request_file_read
remove-request_file_read_example =
    remove-request_file_read toy one file (pos 2) empty one (pos 5) refl

-- A glob that finds the pattern itself.
abbrev no_glob : Bytes → Bool → Unit {0} → List Bytes
no_glob pattern tilde w = pattern ∷ []

listed_dir : list_path no_glob (codes "/data/") false tt ≡ (tt, ok (codes "/data/*" ∷ []))
unfolding list_path
listed_dir = refl
