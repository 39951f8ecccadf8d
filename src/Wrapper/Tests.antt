-- ===== src/Wrapper/Tests.antt =====
-- Lines that a wrapper is sent.
use etransfer.Common.{
  ℕ, suc, ◌≡◌, refl, true, false, [], ◌∷◌, some, none, Bytes, codes, Failure, ok, err, open_failed,
  length,
}
use etransfer.Text.{is_digit}
use etransfer.Address.{decode_data_addr}
use etransfer.Command.{parse_command}
use etransfer.Fd.{EtdcFd}
use etransfer.Wrapper.{EtdServerInterface, handle_lines, answer_line}
use etransfer.Wrapper.Unknown.{are_known, carry_out_all, handle_lines-carry_out_all}

-- Each request adds one to the world, also one that fails.
abbrev counting : EtdServerInterface ℕ
counting = record {
  on_list_path = λ p w. (suc w, err open_failed);
  on_request_file_write = λ p m w. (suc w, err open_failed);
  on_request_file_read = λ p n w. (suc w, err open_failed);
  on_send_file = λ u v n a w. (suc w, ok false);
  on_data_channel_addr = λ w. (suc w, ok []);
  on_remove_uuid = λ u w. (suc w, ok true);
}

abbrev mute : EtdcFd ℕ
mute = record {
  read = λ n w. (w, none);
  write = λ bs w. (w, some (length bs));
  lseek = λ _ _ w. (w, err open_failed);
  close = λ w. w;
}

abbrev no_text : Failure → Bytes
no_text e = []

-- The line behind one that is no command is carried out.
still_removes :
    (handle_lines no_text counting mute (codes "quit" ∷ codes "remove-uuid x" ∷ []) false 0)
    ≡ (1, true)
unfolding handle_lines
still_removes = refl

refused_send :
    (answer_line no_text counting (codes "send-file u v 1 <tcp/a:1>") 0)
    ≡ (1, some (codes "ERR Failed to send file" ∷ []))
unfolding answer_line is_digit decode_data_addr
refused_send = refl

handle_lines-carry_out_all_example :
    handle_lines no_text counting mute (codes "quit" ∷ codes "remove-uuid x" ∷ []) false 0
    ≡ (1, true)
unfolding are_known parse_command carry_out_all
handle_lines-carry_out_all_example =
    handle_lines-carry_out_all no_text counting mute (codes "quit" ∷ codes "remove-uuid x" ∷ [])
      false 0
