-- ===== src/Remote/Loopback.antt =====
-- A connection on which a wrapper answers at once, and which gives back what it wrote in pieces of at
-- most chunk + 1 bytes.
use etransfer.Common.{
  ℕ, suc, ◌≤◌, ◌≡◌, ◌≢◌, refl, sym, ap, ◌∙◌, List, [], ◌∷◌, ◌++◌, none, some, Bytes, Failure, err,
  length, min, take, drop, length-take, take-append-drop, arith, true, read_failed, true,
}
use etransfer.Fd.{EtdcFd}
use etransfer.Wire.{send_replies, get_replies}
use etransfer.Wire.Lines.{is_line, are_lines, get_replies-send_replies}
use etransfer.Proxy.Chunks.{Given}
use etransfer.Wrapper.{EtdServerInterface, answer_line}
use etransfer.Remote.{Served}

-- The world of the server, and what it has written that has not been read.
pub record Link (W : Type 0) : Type 0 where
  pub world : W
  pub on_way : Bytes

module _ {W : Type 0} (what : Failure → Bytes) (srv : EtdServerInterface W) (chunk : ℕ) where
  unfoldable pub carry_out : List Bytes → Link W → Link W
  unfolding answer_line
  carry_out [] v = v
  carry_out (line ∷ lines) v =
      let (w, replies) = answer_line what srv line v.world in
      elim replies [
        | none ↦ record v { world = w }
        | some rs ↦ carry_out lines (record { world = w; on_way = v.on_way ++ send_replies rs })
      ]

  unfoldable pub loopback : EtdcFd (Link W)
  unfolding carry_out
  loopback = record {
    read = λ n v. (
      record v { on_way = drop (min n (suc chunk)) v.on_way },
      some (take (min n (suc chunk)) v.on_way),
    );
    write = λ msg v. (carry_out (get_replies msg).0 v, some (length msg));
    lseek = λ _ _ v. (v, err read_failed);
    close = λ v. v;
  }

  pub given :
      (n : ℕ) (s : Bytes)
      → 1 ≤ n
      → s ≢ []
      → Given n s (drop (min n (suc chunk)) s) (some (take (min n (suc chunk)) s))
  given n [] h e = absurd (e refl)
  given n (c ∷ s) h e =
      let l = length-take (min n (suc chunk)) (c ∷ s) in
      (omega (arith, l), omega (arith, l), sym (take-append-drop (min n (suc chunk)) (c ∷ s)))

  pub handled :
      (line : Bytes) (v : Link W) (replies : List Bytes)
      → is_line line ≡ true
      → (answer_line what srv line v.world).1 ≡ some replies
      → carry_out (get_replies (line ++ 10 ∷ [])).0 v ≡ record {
        world = (answer_line what srv line v.world).0;
        on_way = v.on_way ++ send_replies replies;
      }
  unfolding carry_out send_replies
  handled line v replies h e =
      let whole : are_lines (line ∷ []) ≡ true = ground (arith, h) in
      let one : (get_replies (line ++ 10 ∷ [])).0 ≡ line ∷ [] =
        ap (λ x. x.0) (get_replies-send_replies (line ∷ []) whole) in
      ap (λ ls. carry_out ls v) one ∙ rw (carry_out, e) refl

  unfoldable pub loopback-Served : Served what srv loopback
  unfolding loopback
  loopback-Served = record {
    stream = record { to_come = λ v. v.on_way; reads = λ n v h e. given n v.on_way h e };
    server = λ v. v.world;
    keeps = λ n v. refl;
    takes = λ msg v. refl;
    handles = λ line v replies h quiet e.
        let c = handled line v replies h e in
        (ap (λ x. x.world) c, ap (λ x. x.on_way) c ∙ ap (λ s. s ++ send_replies replies) quiet);
  }
