-- ===== src/Web/Handle.antt =====
-- `handle` of web_server.py for a request that is taken: what it writes and logs.
pub mod Replies
use connected_vehicle_health.Prelude.{
  ℕ, String, Bool, true, false, ◌&&◌, ◌||◌, Option, none, some, List, [], ◌∷◌, ◌++◌, ◌==◌, ◌⊎◌, inl,
  inr, if◌then◌else◌,
}
use connected_vehicle_health.Text.Search.{cut, split_on}
use connected_vehicle_health.Web.Route.{
  Reply, file, file_missing, bad_request, internal_error, route,
}

-- An OSError with its first argument, or another exception.
pub data Failure : Type 0 where
  os_error : Option ℕ → Failure
  other_error : Failure

-- The replies of which the writing is begun, and whether an error is logged.
pub record Handled : Type 0 where
  pub replies : List Reply
  pub logged : Bool

-- `request.split(b"\r\n", 1)[0]`
unfoldable pub first_line : List ℕ → List ℕ
first_line [] = []
first_line (b ∷ []) = b ∷ []
first_line (b ∷ c ∷ bs) =
    let rest = first_line (c ∷ bs) in if b == 13 && c == 10 then [] else b ∷ rest

-- `text.split("?", 1)[0]`
unfoldable pub without_query : String → String
unfolding cut
without_query target = elim (cut "?" target) [ none ↦ target | some (path, query) ↦ path ]

-- The method and the path, if there are two parts.
unfoldable pub method_and_path : List String → Option (String × String)
unfolding without_query
method_and_path (method ∷ target ∷ rest) = some (method, without_query target)
method_and_path _ = none

-- The two error numbers of a connection that the browser has closed.
unfoldable pub is_cancelled : Failure → Bool
is_cancelled (os_error (some n)) = n == 104 || n == 128
is_cancelled _ = false

-- The `except` clauses, after the given replies.
unfoldable pub on_failure : List Reply → Failure → Handled
unfolding is_cancelled
on_failure sent failure =
    if is_cancelled failure
    then record { replies = sent; logged = false }
    else record { replies = sent ++ internal_error ∷ []; logged = true }

module _ (decode : List ℕ → Option String) (modem : Option Bool) (readable : String → Bool)
    (written : Reply → Option Failure) where
  -- `_file` of a file of which the size cannot be read.
  unfoldable pub found : Reply → Reply
  found (file path) = if readable path then file path else file_missing
  found reply = reply

  -- The reply to a first line.
  unfoldable pub reply_to : String → Reply
  unfolding method_and_path split_on route found
  reply_to line = elim (method_and_path (split_on " " line)) [
    | none ↦ bad_request
    | some (method, path) ↦ found (route modem method path)
  ]

  -- A reply is written after the given ones, which may raise.
  unfoldable pub write_after : List Reply → Reply → Handled
  unfolding on_failure
  write_after sent reply = elim (written reply) [
    | none ↦ record { replies = sent ++ reply ∷ []; logged = false }
    | some failure ↦ on_failure (sent ++ reply ∷ []) failure
  ]

  -- The `except` of `_file`: an OSError while a file is written has its own reply.
  unfoldable pub break_off : Reply → Failure → Handled
  unfolding on_failure write_after
  break_off reply (os_error n) = write_after (reply ∷ []) file_missing
  break_off reply other_error = on_failure (reply ∷ []) other_error

  -- A reply to a request, which is that of `_file` if it is a file.
  unfoldable pub write_reply : Reply → Handled
  unfolding break_off write_after
  write_reply (file path) = elim (written (file path)) [
    | none ↦ record { replies = file path ∷ []; logged = false }
    | some failure ↦ break_off (file path) failure
  ]
  write_reply reply = write_after [] reply

  -- The `try` of `handle`, for what the reader gives or raises.
  unfoldable pub handle_request : Failure ⊎ List ℕ → Handled
  unfolding on_failure first_line reply_to write_reply
  handle_request (inl failure) = on_failure [] failure
  handle_request (inr []) = record { replies = []; logged = false }
  handle_request (inr (b ∷ bs)) = elim (decode (first_line (b ∷ bs))) [
    | none ↦ on_failure [] other_error
    | some line ↦ write_reply (reply_to line)
  ]
