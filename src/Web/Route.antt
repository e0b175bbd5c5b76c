-- ===== src/Web/Route.antt =====
-- `_route` of web_server.py, and the head of its replies.
pub mod Served
use Prim.Native.String.{◌++◌}
use connected_vehicle_health.Prelude.{
  ℕ, String, Bool, true, false, not, ◌&&◌, ◌||◌, Option, none, some, List, [], ◌∷◌, str_eq, ◌==◌,
  if◌then◌else◌,
}
use connected_vehicle_health.Prelude.Assoc.{lookup}
use connected_vehicle_health.Config.{static_root}
use connected_vehicle_health.Text.Search.{after_last}

-- What the server does for a request.
pub data Reply : Type 0 where
  health snapshot details status network statistics devices logs : Reply
  restart : Reply
  test_refused : Reply
  -- whether the test starts
  test : Bool → Reply
  not_allowed : Reply
  -- a file of STATIC_ROOT, by its path
  file : String → Reply
  file_missing : Reply
  not_found : Reply
  bad_request : Reply
  internal_error : Reply

-- The paths of a GET, in the order in which they are tried.
abbrev pub pages : List (String × Reply)
pages =
    ("/api/health", health)
    ∷ ("/api/snapshot", snapshot)
    ∷ ("/api/details", details)
    ∷ ("/api/status", status)
    ∷ ("/api/network", network)
    ∷ ("/api/statistics", statistics)
    ∷ ("/api/devices", devices)
    ∷ ("/api/logs", logs)
    ∷ []

-- The replies to a GET.
unfoldable pub route_get : String → Option Reply
unfolding lookup
route_get path = lookup path pages

-- The replies to a POST; `modem` is whether a test starts, if there is a modem.
unfoldable pub route_post : Option Bool → String → Option Reply
route_post modem path =
    if str_eq path "/api/restart"
    then some restart
    else if str_eq path "/api/lte/test"
    then some (elim modem [ none ↦ test_refused | some begun ↦ test begun ])
    else none

-- The files.
unfoldable pub is_static : String → Bool
is_static path =
    str_eq path "/index.html"
    || str_eq path "/style.css"
    || str_eq path "/app.js"
    || str_eq path "/logo.svg"

unfoldable pub route_file : String → Reply
unfolding is_static
route_file path =
    if str_eq path "/"
    then file (static_root ++ "/index.html")
    else if is_static path
    then file (static_root ++ path)
    else not_found

-- `_route`
unfoldable pub route : Option Bool → String → String → Reply
unfolding route_get route_post route_file
route modem method path =
    if str_eq method "GET"
    then (elim (route_get path) [ none ↦ route_file path | some reply ↦ reply ])
    else if str_eq method "POST"
    then (elim (route_post modem path) [ none ↦ not_allowed | some reply ↦ reply ])
    else not_allowed

-- The status of a reply; that of a file is for one that can be read.
unfoldable pub status_of : Reply → ℕ
status_of restart = 202
status_of test_refused = 503
status_of (test begun) = 202
status_of not_allowed = 405
status_of not_found = 404
status_of file_missing = 404
status_of bad_request = 400
status_of internal_error = 500
status_of _ = 200

-- STATUS_REASONS
unfoldable pub reason_of : ℕ → Option String
reason_of n =
    if n == 200
    then some "OK"
    else if n == 202
    then some "Accepted"
    else if n == 400
    then some "Bad Request"
    else if n == 404
    then some "Not Found"
    else if n == 405
    then some "Method Not Allowed"
    else if n == 500
    then some "Internal Server Error"
    else if n == 503
    then some "Service Unavailable"
    else none

-- CONTENT_TYPES
unfoldable pub type_of_extension : String → Option String
type_of_extension ext =
    if str_eq ext "html"
    then some "text/html; charset=utf-8"
    else if str_eq ext "css"
    then some "text/css"
    else if str_eq ext "js"
    then some "application/javascript"
    else if str_eq ext "svg"
    then some "image/svg+xml"
    else none

-- `path.rsplit(".", 1)[-1]`
unfoldable pub extension_of : String → String
unfolding after_last
extension_of path = elim (after_last "." path) [ none ↦ path | some ext ↦ ext ]

-- `STATUS_REASONS.get(status, "OK")`
unfoldable pub reason_or_ok : ℕ → String
unfolding reason_of
reason_or_ok code = elim (reason_of code) [ none ↦ "OK" | some reason ↦ reason ]

-- The content type in `_file`.
unfoldable pub type_of_path : String → String
unfolding extension_of type_of_extension
type_of_path path = elim (type_of_extension (extension_of path)) [
  | none ↦ "application/octet-stream"
  | some content_type ↦ content_type
]

-- `_headers`; `show` is `%d`.
unfoldable pub headers : (ℕ → String) → ℕ → String → ℕ → String
unfolding reason_or_ok
headers show code content_type length =
    "HTTP/1.1 "
    ++ show code
    ++ " "
    ++ reason_or_ok code
    ++ "\r\nContent-Type: "
    ++ content_type
    ++ "\r\nContent-Length: "
    ++ show length
    ++ "\r\nCache-Control: no-cache\r\nConnection: close\r\n\r\n"
