-- ===== src/Wrapper/Unknown.antt =====
-- What the loop over the lines of one read in ETDServerWrapper::handle does.
use etransfer.Common.{
  bad_number, sym, ◌≡◌, refl, ◌∙◌, Bool, true, false, List, [], ◌∷◌, none, some, Bytes, Failure,
  Option-cases, inl, inr, not, ◌&&◌, ◌||◌, ap,
}
use etransfer.Fd.{EtdcFd}
use etransfer.Command.{parse_command}
use etransfer.Wrapper.{
  EtdServerInterface, answer_line, run_command, err_reply, handle_lines, write_replies,
}

-- A line that one of the regular expressions fits.
unfoldable pub is_known : Bytes → Bool
is_known line = elim (parse_command line) [ none ↦ false | some _ ↦ true ]

unfoldable pub are_known : List Bytes → Bool
unfolding is_known
are_known [] = true
are_known (line ∷ lines) = is_known line && are_known lines

or_true : (b : Bool) → (b || true) ≡ true
or_true true = refl
or_true false = refl

module _ {W : Type 0} (what : Failure → Bytes) (srv : EtdServerInterface W) (conn : EtdcFd W) where
  -- What becomes of one line: one that is no command closes the connection; a number out of range is
  -- answered by its failure; any other is carried out and answered.
  unfoldable pub carry_out : Bytes → W → W
  unfolding parse_command run_command write_replies
  carry_out line w = elim (parse_command line) [
    | none ↦ conn.close w
    | some none ↦ write_replies what srv conn (err_reply what bad_number) w
    | some (some c) ↦
        write_replies what srv conn (run_command what srv c w).1 (run_command what srv c w).0
  ]

  unfoldable pub carry_out_all : List Bytes → W → W
  unfolding carry_out
  carry_out_all [] w = w
  carry_out_all (line ∷ lines) w = carry_out_all lines (carry_out line w)

  -- All the lines that a read completed are handled, in their order, whatever the server answers and
  -- also behind a line that fits none of the regular expressions, which closes the connection. The loop
  -- that reads is told to stop after them if it was before, or if one of the lines is no command.
  pub handle_lines-carry_out_all :
      (lines : List Bytes) (terminated : Bool) (w : W)
      → handle_lines what srv conn lines terminated w
        ≡ (carry_out_all lines w, terminated || not (are_known lines))
  unfolding handle_lines answer_line are_known carry_out carry_out_all
  handle_lines-carry_out_all [] true w = refl
  handle_lines-carry_out_all [] false w = refl
  handle_lines-carry_out_all (line ∷ lines) terminated w =
      elim (Option-cases (parse_command line)) [
        | inl e ↦
            let step : answer_line what srv line w ≡ (w, none) = rw (answer_line, e) refl in
            rw (handle_lines, step, is_known, carry_out_all, carry_out, e)
              (handle_lines-carry_out_all lines true (conn.close w)
                ∙ ap (λ b. (carry_out_all lines (conn.close w), b)) (sym (or_true terminated)))
        | inr (none, e) ↦
            let step : answer_line what srv line w ≡ (w, some (err_reply what bad_number)) =
              rw (answer_line, e) refl in
            rw (handle_lines, step, is_known, carry_out_all, carry_out, e)
              (handle_lines-carry_out_all lines terminated
                (write_replies what srv conn (err_reply what bad_number) w))
        | inr (some c, e) ↦
            let o = run_command what srv c w in
            let step : answer_line what srv line w ≡ (o.0, some o.1) = rw (answer_line, e) refl in
            rw (handle_lines, step, is_known, carry_out_all, carry_out, e)
              (handle_lines-carry_out_all lines terminated (write_replies what srv conn o.1 o.0))
      ]
