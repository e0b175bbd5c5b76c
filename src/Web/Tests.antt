-- ===== src/Web/Tests.antt =====
-- The theorems on web_server.py at single requests.
use connected_vehicle_health.Prelude.{
  ℕ, ◌≡◌, refl, String, true, false, Option, none, some, List, [], ◌∷◌, inr, ◌==◌, if◌then◌else◌,
}
use connected_vehicle_health.Web.Route.{Reply, file, file_missing, internal_error, route}
use connected_vehicle_health.Web.Route.Served.{IsFor, route-IsFor}
use connected_vehicle_health.Web.Handle.{Failure, os_error, Handled, handle_request}

route-IsFor_example : IsFor (some true) "GET" "/style.css" (route (some true) "GET" "/style.css")
route-IsFor_example = route-IsFor (some true) "GET" "/style.css"

-- "GET /" in bytes, decoded.
abbrev line_of : List ℕ → Option String
line_of [] = none
line_of (b ∷ bs) = if b == 71 then some "GET /?t=1 HTTP/1.1" else none

-- Writing the page breaks off, and so does the reply after it.
abbrev breaks : Reply → Option Failure
breaks reply = some (os_error (some 5))

abbrev broken_page : Handled
broken_page = handle_request line_of none (λ path. true) breaks (inr (71 ∷ 13 ∷ 10 ∷ []))

broken_page_replies :
    broken_page.replies ≡ file "www/index.html" ∷ file_missing ∷ internal_error ∷ []
unfolding handle_request
broken_page_replies = refl

-- Only the page breaks off: the reply that it is missing follows, and nothing is logged.
abbrev breaks_once : Reply → Option Failure
breaks_once (file path) = some (os_error (some 5))
breaks_once reply = none

cut_page :
    handle_request line_of none (λ path. true) breaks_once (inr (71 ∷ 13 ∷ 10 ∷ []))
    ≡ record { replies = file "www/index.html" ∷ file_missing ∷ []; logged = false }
unfolding handle_request
cut_page = refl
