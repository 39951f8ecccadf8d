-- ===== src/Remote/Asking.antt =====
-- A command that is sent is carried out, and its replies are on their way.
use etransfer.Common.{
  ℕ, ◌≡◌, refl, ap, ◌∙◌, Bool, true, List, [], ◌∷◌, ◌++◌, some, Bytes, Result, Failure, ok, err,
  length, arith, ◌==◌, ==_iff,
}
use etransfer.Fd.{EtdcFd}
use etransfer.Wire.{send_replies, reply_lines}
use etransfer.Wire.Lines.{is_line}
use etransfer.Command.{Command, print_command}
use etransfer.Command.RoundTrip.{is_sendable, parse_command-print_command}
use etransfer.Proxy.{send_command, read_reply, one_line_loop, one_line_result}
use etransfer.Proxy.Chunks.{reply_loop-lines}
use etransfer.Wire.Prefix.{Short}
use etransfer.Proxy.OneLine.{reply_loop-fails, one_line_loop-line}
use etransfer.Proxy.Requests.{ask}
use etransfer.Wrapper.{EtdServerInterface, answer_line, run_command}
use etransfer.Remote.{Served, Deliverable}

Short-nil : (ls : List Bytes) → Short [] ls
Short-nil [] = refl
Short-nil (l ∷ ls) = omega arith

module _ {V W : Type 0} {what : Failure → Bytes} {srv : EtdServerInterface W} {conn : EtdcFd V}
    (sv : Served what srv conn) where
  open sv use {stream, server}
  open stream use {to_come}

  -- The world when the command has been sent.
  abbrev pub sent : Command → V → V
  sent c v = (conn.write (print_command c ++ 10 ∷ []) v).0

  answer_line-print_command :
      (c : Command) (w : W)
      → is_sendable c ≡ true
      → answer_line what srv (print_command c) w
        ≡ ((run_command what srv c w).0, some (run_command what srv c w).1)
  unfolding answer_line
  answer_line-print_command c w h = rw (answer_line, parse_command-print_command c h) refl

  pub record Sent (c : Command) (v : V) : Type 0 where
    pub done : server (sent c v) ≡ (run_command what srv c (server v)).0
    pub coming : to_come (sent c v) ≡ send_replies (run_command what srv c (server v)).1

  pub sent_lem :
      (c : Command) (v : V)
      → is_sendable c ≡ true
      → is_line (print_command c) ≡ true
      → to_come v ≡ []
      → Sent c v
  sent_lem c v h line quiet =
      let a = answer_line-print_command c (server v) h in
      let (d, e) =
        sv.handles (print_command c) v (run_command what srv c (server v)).1 line quiet
          (ap (λ x. x.1) a) in
      record { done = d ∙ ap (λ x. x.0) a; coming = e }

  send_command-whole :
      (msg : Bytes) (v : V) → send_command conn msg v ≡ ((conn.write msg v).0, ok tt)
  unfolding send_command
  send_command-whole msg v =
      let same : (length msg == length msg) ≡ true = (==_iff (length msg) (length msg)).1 refl in
      rw (send_command, sv.takes msg v) (rw same refl)

  pub ask_lem :
      {A : Type 0} (fuel : ℕ) (c : Command) (receive : V → V × Result A) (v : V)
      → ask conn fuel c receive v ≡ receive (sent c v)
  unfolding ask
  ask_lem fuel c receive v =
      ap (λ p. elim p.1 [ err e ↦ (p.0, err e) | ok _ ↦ receive p.0 ])
        (send_command-whole (print_command c ++ 10 ∷ []) v)

  module _ {S : Type 0} (step : S → Bytes → Result (Bool × S)) (buf_sz fuel : ℕ)
      (replies : List Bytes) (d : Deliverable buf_sz fuel replies) (v : V)
      (e : to_come v ≡ send_replies replies) where
    pub read_reply-ok :
        (s s' : S)
        → reply_lines step s replies ≡ ok (true, s')
        → (read_reply step buf_sz conn fuel s v).1 ≡ ok s'
    unfolding read_reply
    read_reply-ok s s' h =
        let r =
          reply_loop-lines step stream buf_sz fuel s s' [] v replies d.lines d.fits
            (Short-nil replies) e h (omega (arith, d.in_time, ap length e)) in
        rw (read_reply, r.0) refl

  pub read_reply-err :
      {S : Type 0} (step : S → Bytes → Result (Bool × S)) (buf_sz fuel : ℕ) (line : Bytes)
      (d : Deliverable buf_sz fuel (line ∷ [])) (v : V)
      → to_come v ≡ send_replies (line ∷ [])
      → (s : S) (f : Failure) → step s line ≡ err f
      → (read_reply step buf_sz conn fuel s v).1 ≡ err f
  unfolding read_reply
  read_reply-err step buf_sz fuel line d v e s f h =
      let r =
        reply_loop-fails stream buf_sz line d.lines d.fits.0 step f fuel s [] v (omega arith) e h
          (omega (arith, d.in_time, ap length e)) in
      rw (read_reply, r) refl

  pub one_line-reply :
      (fuel : ℕ) (line : Bytes) (d : Deliverable 2048 fuel (line ∷ [])) (v : V)
      → to_come v ≡ send_replies (line ∷ [])
      → (one_line_loop fuel 2048 conn [] v).1 ≡ one_line_result line
  one_line-reply fuel line d v e =
      one_line_loop-line stream 2048 line d.lines d.fits.0 fuel [] v (omega arith) e
        (omega (arith, d.in_time, ap length e))
