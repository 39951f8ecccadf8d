-- ===== src/Remote/Loops.antt =====
-- What the calls of ETDProxy do with the replies of a server at the other end, from what their loops
-- make of the lines.
use etransfer.Common.{
  map_ok, ◌⊎◌, ℕ, ◌≡◌, refl, sym, ap, subst, ◌∙◌, inl, inr, Bool, true, false, List, [], ◌∷◌, Bytes,
  codes, Result, Failure, ok, err, refused,
}
use etransfer.Fd.{EtdcFd}
use etransfer.Wire.{send_replies, reply_lines}
use etransfer.Wire.Lines.{is_line}
use etransfer.Command.{Command, print_command}
use etransfer.Command.RoundTrip.{is_sendable}
use etransfer.Proxy.{read_reply, one_line_loop, one_line_result}
use etransfer.Proxy.Answers.{error_line, one_line_result-error}
use etransfer.Proxy.Keeps.{read_reply-keeps, one_line_loop-keeps}
use etransfer.Proxy.Requests.{after_reply, ask}
use etransfer.Wrapper.{EtdServerInterface, run_command, replies_of, done_replies, err_reply}
use etransfer.Remote.{Served, Deliverable, seen, seen_done}
use etransfer.Remote.Asking.{sent, sent_lem, ask_lem, read_reply-ok, read_reply-err, one_line-reply}

abbrev pub Succeeds : {A : Type 0} → (A → Type 0) → Result A → Type 0
Succeeds P (ok a) = P a
Succeeds P (err e) = Unit

after_reply-value :
    {W A B : Type 0} (get : A → Result B) (o : W × Result A) (t : A)
    → o.1 ≡ ok t
    → (after_reply get o).1 ≡ get t
unfolding after_reply
after_reply-value get (w, r) t e = rw e refl

after_reply-failed :
    {W A B : Type 0} (get : A → Result B) (o : W × Result A) (e : Failure)
    → o.1 ≡ err e
    → (after_reply get o).1 ≡ err e
unfolding after_reply
after_reply-failed get (w, r) t e = rw e refl

after_reply-world :
    {W A B : Type 0} (get : A → Result B) (o : W × Result A) → (after_reply get o).0 ≡ o.0
unfolding after_reply
after_reply-world get (w, ok a) = refl
after_reply-world get (w, err e) = refl

module _ {V W : Type 0} {what : Failure → Bytes} {srv : EtdServerInterface W} {conn : EtdcFd V}
    (sv : Served what srv conn) where
  open sv use {stream, server}
  open stream use {to_come}

  -- The proxy's call does to the server what the call of the server does, and gives the same result, but
  -- for the kind of a failure.
  abbrev pub Same : {A : Type 0} → (Result A → Result A) → V × Result A → W × Result A → Type 0
  Same view mine theirs = (mine.1 ≡ view theirs.1) × (server mine.0 ≡ theirs.0)

  -- A command can be sent, and its replies can be read.
  pub record Ready (buf_sz fuel : ℕ) (c : Command) (v : V) : Type 0 where
    pub sendable : is_sendable c ≡ true
    pub one_line : is_line (print_command c) ≡ true
    pub quiet : to_come v ≡ []
    pub deliverable : Deliverable buf_sz fuel (run_command what srv c (server v)).1

  -- What is on its way when the command has been carried out.
  record Arrived (buf_sz fuel : ℕ) (c : Command) (v : V) (w : W) (replies : List Bytes)
      : Type 0 where
    coming : to_come (sent sv c v) ≡ send_replies replies
    deliver : Deliverable buf_sz fuel replies
    done : server (sent sv c v) ≡ w

  arrived :
      (buf_sz fuel : ℕ) (c : Command) (v : V) (w : W) (replies : List Bytes)
      → Ready buf_sz fuel c v
      → run_command what srv c (server v) ≡ (w, replies)
      → Arrived buf_sz fuel c v w replies
  arrived buf_sz fuel c v w replies r run =
      let st = sent_lem sv c v r.sendable r.one_line r.quiet in
      record {
        coming = st.coming ∙ ap (λ x. send_replies x.1) run;
        deliver = subst (Deliverable buf_sz fuel) (ap (λ x. x.1) run) r.deliverable;
        done = st.done ∙ ap (λ x. x.0) run;
      }

  asked :
      {A B : Type 0} (view : Result B → Result B) (fuel : ℕ) (c : Command) (get : A → Result B)
      (receive : V → V × Result A) (v : V) (w : W) (res : Result B)
      → ((u : V) → server (receive u).0 ≡ server u)
      → server (sent sv c v) ≡ w
      → (after_reply get (receive (sent sv c v))).1 ≡ view res
      → Same view (ask conn fuel c (λ u. after_reply get (receive u)) v) (w, res)
  asked view fuel c get receive v w res keeps done value =
      let o = receive (sent sv c v) in
      let world : server (after_reply get o).0 ≡ w =
        ap server (after_reply-world get o) ∙ (keeps (sent sv c v) ∙ done) in
      subst (λ p. Same view p (w, res))
        (sym (ask_lem sv fuel c (λ u. after_reply get (receive u)) v)) (value, world)

  -- What a call with a reply of several lines does, from what its loop makes of the lines.
  pub loops :
      {S A : Type 0} (step : S → Bytes → Result (Bool × S)) (s : S) (get : S → Result A)
      (buf_sz fuel : ℕ) (c : Command) (v : V) (f : A → List Bytes) (theirs : W × Result A)
      → Ready buf_sz fuel c v
      → run_command what srv c (server v) ≡ replies_of what f theirs
      → ((a : A)
          → theirs.1 ≡ ok a
          → (t : S) × (reply_lines step s (f a) ≡ ok (true, t)) × (get t ≡ ok a))
      → ((text : Bytes)
          → ((t : S) × (reply_lines step s (error_line text ∷ []) ≡ ok (true, t))
              × (get t ≡ err refused))
            ⊎ (step s (error_line text) ≡ err refused))
      → Same seen
          (ask conn fuel c (λ w. after_reply get (read_reply step buf_sz conn fuel s w)) v)
          theirs
  unfolding after_reply replies_of err_reply seen
  loops step s get buf_sz fuel c v f (w, ok a) r run good bad =
      let at = arrived buf_sz fuel c v w (f a) r run in
      let (t, q, g) = good a refl in
      let receive = λ (u : V). read_reply step buf_sz conn fuel s u in
      asked seen fuel c get receive v w (ok a)
        (read_reply-keeps conn server sv.keeps buf_sz step fuel s) at.done
        (after_reply-value get (receive (sent sv c v)) t
            (read_reply-ok sv step buf_sz fuel (f a) at.deliver (sent sv c v) at.coming s t q)
          ∙ g)
  loops step s get buf_sz fuel c v f (w, err e) r run good bad =
      let line = error_line (what e) in
      let at = arrived buf_sz fuel c v w (line ∷ []) r run in
      let receive = λ (u : V). read_reply step buf_sz conn fuel s u in
      asked seen fuel c get receive v w (err e)
        (read_reply-keeps conn server sv.keeps buf_sz step fuel s) at.done
        (elim (bad (what e)) [
          | inl (t, q, g) ↦
              after_reply-value get (receive (sent sv c v)) t (
                read_reply-ok sv step buf_sz fuel (line ∷ []) at.deliver (sent sv c v) at.coming s t
                  q)
              ∙ g
          | inr q ↦ after_reply-failed get (receive (sent sv c v)) refused (
              read_reply-err sv step buf_sz fuel line at.deliver (sent sv c v) at.coming s refused
                q)
        ])

  -- The same for a reply of one line, of which the loop makes what one_line_result says.
  one_line :
      (fuel : ℕ) (c : Command) (v : V) (w : W) (line : Bytes) (res : Result Bool)
      (said : Result (Unit {0}))
      → Ready 2048 fuel c v
      → run_command what srv c (server v) ≡ (w, line ∷ [])
      → one_line_result line ≡ said
      → map_ok (λ _. true) said ≡ seen_done res
      → Same seen_done
          (ask conn fuel c (λ u. after_reply (λ _. ok true) (one_line_loop fuel 2048 conn [] u)) v)
          (w, res)
  one_line fuel c v w line res said r run h e =
      let at = arrived 2048 fuel c v w (line ∷ []) r run in
      let u = sent sv c v in
      let receive = λ (u : V). one_line_loop fuel 2048 conn [] u in
      let value = one_line-reply sv fuel line at.deliver u at.coming ∙ h in
      asked seen_done fuel c (λ _. ok true) receive v w res
        (one_line_loop-keeps conn server sv.keeps 2048 fuel []) at.done
        (true_if (receive u) said value ∙ e)
    where
      true_if :
          (o : V × Result (Unit {0})) (said : Result (Unit {0}))
          → o.1 ≡ said
          → (after_reply (λ _. ok true) o).1 ≡ map_ok (λ _. true) said
      true_if o (ok x) q = after_reply-value (λ _. ok true) o x q
      true_if o (err x) q = after_reply-failed (λ _. ok true) o x q

  pub one_line_asks :
      (fuel : ℕ) (c : Command) (v : V) (text : Bytes) (theirs : W × Result Bool)
      → Ready 2048 fuel c v
      → run_command what srv c (server v) ≡ replies_of what (done_replies (error_line text)) theirs
      → Same seen_done
          (ask conn fuel c (λ w. after_reply (λ _. ok true) (one_line_loop fuel 2048 conn [] w)) v)
          theirs
  unfolding done_replies replies_of err_reply seen_done one_line_result
  one_line_asks fuel c v text (w, ok true) r run =
      one_line fuel c v w (codes "OK") (ok true) (ok tt) r run refl refl
  one_line_asks fuel c v text (w, ok false) r run =
      one_line fuel c v w (error_line text) (ok false) (err refused) r run
        (one_line_result-error text) refl
  one_line_asks fuel c v text (w, err e) r run =
      one_line fuel c v w (error_line (what e)) (err e) (err refused) r run
        (one_line_result-error (what e)) refl
