-- ===== src/Client/Whole.antt =====
-- The client, from the listing on, leaves no transfer behind, unless a request or a removal throws.
use etransfer.Common.{
  ℕ, Bool, true, false, List, [], ◌∷◌, Option, none, some, Bytes, Result, ok, err, ◌≡◌, ◌∙◌, inl,
  inr, Result-cases, ◌⊎◌,
}
use etransfer.Common.Int.{ℤ}
use etransfer.OpenMode.{OpenMode}
use etransfer.State.{SockName}
use etransfer.Url.{Url}
use etransfer.Client.Cleanup.{Requests, Frees, IsLeft, Ledger, transfer_files_cleans}
use etransfer.Client.Program.{
  Endpoint, checked, move_by, pulled, pushed, route, routed, listed, copy_files,
}

-- Two endpoints, each with a place for one transfer: the moves of a file, the listing and the question
-- for the data channels take and give up none.
pub record Places {W : Type 0} (src dst : Endpoint W) : Type 0 where
  pub src_at : W → Option Bytes
  pub dst_at : W → Option Bytes
  pub writing :
      (path : Bytes) (mode : OpenMode) (w : W)
      → Requests dst_at src_at w (dst.calls.request_write path mode w)
  pub reading :
      (path : Bytes) (have : ℤ) (w : W)
      → Requests src_at dst_at w (src.calls.request_read path have w)
  pub freeing_dst :
      (u : Bytes) (w : W) → dst_at w ≡ some u → Frees dst_at src_at w (dst.calls.remove u w)
  pub freeing_src :
      (u : Bytes) (w : W) → src_at w ≡ some u → Frees src_at dst_at w (src.calls.remove u w)
  pub sending :
      (u v : Bytes) (n : ℕ) (cs : List SockName) (w : W)
      → (dst_at (src.send_file v u n cs w).0 ≡ dst_at w)
        × (src_at (src.send_file v u n cs w).0 ≡ src_at w)
  pub getting :
      (u v : Bytes) (n : ℕ) (cs : List SockName) (w : W)
      → (dst_at (dst.get_file v u n cs w).0 ≡ dst_at w)
        × (src_at (dst.get_file v u n cs w).0 ≡ src_at w)
  pub listing :
      (path : Bytes) (w : W)
      → (dst_at (src.list_path path false w).0 ≡ dst_at w)
        × (src_at (src.list_path path false w).0 ≡ src_at w)
  pub asking_dst :
      (w : W)
      → (dst_at (dst.data_channel_addr w).0 ≡ dst_at w)
        × (src_at (dst.data_channel_addr w).0 ≡ src_at w)
  pub asking_src :
      (w : W)
      → (dst_at (src.data_channel_addr w).0 ≡ dst_at w)
        × (src_at (src.data_channel_addr w).0 ≡ src_at w)

module _ {W : Type 0} {src dst : Endpoint W} (p : Places src dst) where
  -- Neither endpoint holds a transfer.
  abbrev pub IsFree : W → Type 0
  IsFree w = (p.dst_at w ≡ none) × (p.src_at w ≡ none)

  -- So it is at the end, unless a request or a removal threw the exception that ends it.
  abbrev pub Leaves : W × Result (Unit {0}) → Type 0
  Leaves (w, ok _) = IsFree w
  Leaves (w, err e) = IsFree w ⊎ IsLeft src.calls dst.calls p.src_at p.dst_at w e

  abbrev ledger_of :
      (push : Bool) (cs : List SockName) → Ledger src.calls dst.calls (move_by src dst push cs)
  unfolding move_by
  ledger_of true cs = record {
    at_src = p.src_at;
    at_dst = p.dst_at;
    writes = p.writing;
    reads = p.reading;
    frees_dst = p.freeing_dst;
    frees_src = p.freeing_src;
    moves = λ u v n w. p.sending u v n cs w;
  }
  ledger_of false cs = record {
    at_src = p.src_at;
    at_dst = p.dst_at;
    writes = p.writing;
    reads = p.reading;
    frees_dst = p.freeing_dst;
    frees_src = p.freeing_src;
    moves = λ u v n w. p.getting u v n cs w;
  }

  pulled-IsFree :
      (url : Url) (o : W × Result (List SockName)) → IsFree o.0 → IsFree (pulled url o).0
  unfolding pulled
  pulled-IsFree url (w, err e) h = h
  pulled-IsFree url (w, ok cs) h = h

  pushed-IsFree :
      (u v : Url) (o : W × Result (List SockName)) → IsFree o.0 → IsFree (pushed u v src o).0
  unfolding pushed
  pushed-IsFree u v (w, err e) h = h
  pushed-IsFree u v (w, ok []) (a, b) =
      let (same_dst, same_src) = p.asking_src w in
      pulled-IsFree u (src.data_channel_addr w) (same_dst ∙ a, same_src ∙ b)
  pushed-IsFree u v (w, ok (c ∷ cs)) h = h

  routed-Leaves :
      (u v : Url) (mode : OpenMode) (files : List Bytes) (o : W × Result (Bool × List SockName))
      → IsFree o.0
      → Leaves (routed u v src dst mode files o)
  unfolding routed
  routed-Leaves u v mode files (w, err e) h = inl h
  routed-Leaves u v mode files (w, ok (true, cs)) h =
      transfer_files_cleans (ledger_of true cs) v.path mode files w h
  routed-Leaves u v mode files (w, ok (false, cs)) h =
      transfer_files_cleans (ledger_of false cs) v.path mode files w h

  listed-Leaves :
      (u v : Url) (mode : OpenMode) (o : W × Result (List Bytes))
      → IsFree o.0
      → Leaves (listed u v src dst mode o)
  unfolding listed route
  listed-Leaves u v mode (w, err e) h = inl h
  listed-Leaves u v mode (w, ok paths) (a, b) = elim (Result-cases (checked v.path paths)) [
    | inl (e, q) ↦ rw (listed, q) (inl (a, b))
    | inr (files, q) ↦
        let (same_dst, same_src) = p.asking_dst w in
        rw (listed, q)
          (routed-Leaves u v mode files (route u v src dst w)
            (pushed-IsFree u v (dst.data_channel_addr w) (same_dst ∙ a, same_src ∙ b)))
  ]

-- Whether the run of the client with two URLs pushes or pulls: if neither server holds a transfer when it
-- starts, neither does when it returns. If it ends in an exception neither does either, unless the
-- exception is one that a request for a file or a removal threw; then what may be left is at the server
-- whose call threw, and at the other one only if that call is the removal at the destination. The servers
-- behave as Places says: a request that returns takes a transfer, a removal that names it and returns
-- gives it up, one that throws leaves the other server alone, and no other call takes or gives up one.
pub copy_files_cleans :
    {W : Type 0} {src dst : Endpoint W} (p : Places src dst) (src_url dst_url : Url)
    (mode : OpenMode) (w : W)
    → IsFree p w
    → Leaves p (copy_files src_url dst_url src dst mode w)
unfolding copy_files
copy_files_cleans {src = src} p src_url dst_url mode w (a, b) =
    let (same_dst, same_src) = p.listing src_url.path w in
    listed-Leaves p src_url dst_url mode (src.list_path src_url.path false w)
      (same_dst ∙ a, same_src ∙ b)
