-- ===== src/Tcp.antt =====
-- tcp_server.py: the reading of one message from a client.
pub mod Frame
pub mod Server
mod Tests
use connected_vehicle_health.Prelude.{
  ℕ, zero, suc, ◌-◌, min, Bool, true, false, Option, none, some, List, [], ◌∷◌, ◌++◌, length, leb,
  ltb, ◌==◌, if◌then◌else◌,
}
use connected_vehicle_health.Config.{
  tcp_read_size, tcp_max_message_size, tcp_frame_timeout_ms, tcp_client_idle_timeout_ms,
}

-- `b"\n" in chunk`
unfoldable pub has_newline : List ℕ → Bool
has_newline [] = false
has_newline (b ∷ bs) = let rest = has_newline bs in if b == 10 then true else rest

-- `data.split(b"\n", 1)[0]`
unfoldable pub before_newline : List ℕ → List ℕ
before_newline [] = []
before_newline (b ∷ bs) = let rest = before_newline bs in if b == 10 then [] else b ∷ rest

-- `timeout_ms`
unfoldable pub timeout_of : List ℕ → ℕ
timeout_of [] = tcp_client_idle_timeout_ms
timeout_of (b ∷ bs) = tcp_frame_timeout_ms

-- The end of one pass of the loop: the frame is complete, the loop breaks, or it goes on.
pub data Progress (S : Type 0) : Type 0 where
  framed : List ℕ → S → Progress S
  broken : List ℕ → S → Progress S
  more : List ℕ → S → Progress S

-- What `_read_message` returns: the bytes, and whether it logs that the limit was reached.
pub record Message : Type 0 where
  pub bytes : List ℕ
  pub at_limit : Bool

-- The last three lines.
unfoldable pub unframed : List ℕ → Message
unframed got = record { bytes = got; at_limit = leb tcp_max_message_size (length got) }

-- What follows a pass, where `next` is the rest of the loop.
unfoldable pub after_pass :
    {S : Type 0} → (List ℕ → S → Option (Message × S)) → Progress S → Option (Message × S)
unfolding unframed
after_pass next (framed frame s) = some (record { bytes = frame; at_limit = false }, s)
after_pass next (broken rest s) = some (unframed rest, s)
after_pass next (more longer s) = next longer s

-- `read` is the reader with its timeout, on the state of the connection; `none` is a timeout.
module _ {S : Type 0} (read : ℕ → ℕ → S → Option (List ℕ) × S) where
  -- The pass, with the chunk that was read.
  unfoldable pub take_chunk : List ℕ → Option (List ℕ) × S → Progress S
  unfolding has_newline before_newline
  take_chunk got (none, s) = broken got s
  take_chunk got (some [], s) = broken got s
  take_chunk got (some (b ∷ bs), s) =
      if has_newline (b ∷ bs)
      then framed (before_newline (got ++ b ∷ bs)) s
      else more (got ++ b ∷ bs) s

  -- One pass of the loop.
  unfoldable pub receive : List ℕ → S → Progress S
  unfolding take_chunk timeout_of
  receive got s =
      take_chunk got
        (read (min tcp_read_size (tcp_max_message_size - length got)) (timeout_of got) s)

  -- The loop, for at most `fuel` passes.
  unfoldable pub read_loop : ℕ → List ℕ → S → Option (Message × S)
  unfolding receive unframed after_pass
  read_loop zero got s = none
  read_loop (suc fuel) got s =
      if ltb (length got) tcp_max_message_size
      then after_pass (read_loop fuel) (receive got s)
      else some (unframed got, s)

  -- `_read_message`
  unfoldable pub read_message : S → Option (Message × S)
  unfolding read_loop
  read_message s = read_loop (suc tcp_max_message_size) [] s
