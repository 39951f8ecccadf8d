-- ===== src/Command/Tests.antt =====
-- Commands as they are sent and understood.
use etransfer.Common.{◌≡◌, refl, [], ◌∷◌, ◌++◌, codes, some, none}
use etransfer.Common.Int.{pos, negsuc}
use etransfer.Text.{is_digit}
use etransfer.Command.{Command, list_path, read_file, send_file, print_command, parse_command}
use etransfer.Command.RoundTrip.{is_sendable, parse_command-print_command}

-- No address: the line is no command, and the connection is closed.
no_address : parse_command (print_command (send_file (codes "u") (codes "v") (pos 1) [])) ≡ none
unfolding parse_command print_command is_digit
no_address = refl

-- A negative number is no command either.
negative : parse_command (print_command (read_file (negsuc 0) (codes "/a"))) ≡ none
unfolding parse_command print_command is_digit
negative = refl

too_large : parse_command (codes "read-file 9223372036854775808 /a") ≡ some none
unfolding parse_command is_digit
too_large = refl

any_case : parse_command (codes "LIST   /a b") ≡ some (some (list_path (codes "/a b")))
unfolding parse_command is_digit
any_case = refl

-- A path with a newline in it fits no expression.
two_lines : parse_command (codes "list /a" ++ 10 ∷ codes "b") ≡ none
unfolding parse_command is_digit
two_lines = refl

abbrev sending : Command
sending =
    send_file (codes "u") (codes "v") (pos 30) (codes "<tcp/a:1>" ∷ codes "<udt/[::1]:2>" ∷ [])

parse_command-print_command_example : parse_command (print_command sending) ≡ some (some sending)
unfolding is_sendable
parse_command-print_command_example = parse_command-print_command sending refl
