-- ===== src/Remote.antt =====
-- src/etdc_etdserver.cc: ETDProxy and ETDServerWrapper together: a server that is asked over a
-- connection on which a wrapper carries out its commands.
pub mod Asking
mod Loops
mod Requests
mod Loopback
mod Tests
use etransfer.Common.{
  ℕ, ◌≤◌, ◌<◌, ◌≡◌, Bool, true, false, List, [], ◌∷◌, ◌++◌, Option, some, Bytes, Result, Failure,
  ok, err, refused, length,
}
use etransfer.Fd.{EtdcFd}
use etransfer.Wire.{send_replies}
use etransfer.Wire.Lines.{are_lines, is_line}
use etransfer.Proxy.Chunks.{Stream, Fit}
use etransfer.Wrapper.{EtdServerInterface, answer_line}

-- A connection `conn` that is up, at whose other end a wrapper has srv carry out the line that comes in
-- while nothing is on its way back. Reading from it does not reach the server.
pub record Served {V W : Type 0} (what : Failure → Bytes) (srv : EtdServerInterface W)
    (conn : EtdcFd V) : Type 0 where
  pub stream : Stream conn
  pub server : V → W
  pub keeps : (n : ℕ) (v : V) → server (conn.read n v).0 ≡ server v
  pub takes : (msg : Bytes) (v : V) → (conn.write msg v).1 ≡ some (length msg)
  pub handles :
      (line : Bytes) (v : V) (replies : List Bytes)
      → is_line line ≡ true
      → stream.to_come v ≡ []
      → (answer_line what srv line (server v)).1 ≡ some replies
      → (server (conn.write (line ++ 10 ∷ []) v).0 ≡ (answer_line what srv line (server v)).0)
        × (stream.to_come (conn.write (line ++ 10 ∷ []) v).0 ≡ send_replies replies)

-- What the other end is told of a result: that there was a failure, but not which.
unfoldable pub seen : {A : Type 0} → Result A → Result A
seen (ok a) = ok a
seen (err e) = err refused

-- The requests that give a bool are told a failure where it is false.
unfoldable pub seen_done : Result Bool → Result Bool
seen_done (ok true) = ok true
seen_done (ok false) = err refused
seen_done (err e) = err refused

-- Replies that a buffer of the proxy can take, line by line, in fewer than `fuel` bytes.
pub record Deliverable (buf_sz fuel : ℕ) (replies : List Bytes) : Type 0 where
  pub lines : are_lines replies ≡ true
  pub fits : Fit buf_sz replies
  pub in_time : length (send_replies replies) < fuel
