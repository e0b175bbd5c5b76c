-- ===== src/Web/Route/Served.antt =====
-- What the server of web_server.py does for which requests, and how its replies are described.
use Prim.Native.String.{◌++◌}
use connected_vehicle_health.Prelude.{
  ◌≡◌, ◌≢◌, ◌⊎◌, inl, inr, refl, sym, subst, String, Bool, true, Option, none, some, str_eq, eq_iff,
  arith, List, [], ◌∷◌, All, Bool-cases, Option-cases,
}
use connected_vehicle_health.Prelude.Assoc.{lookup}
use connected_vehicle_health.Config.{static_root}
use connected_vehicle_health.Web.Route.{
  Reply, restart, test_refused, test, not_allowed, file, file_missing, pages, bad_request,
  internal_error, route, route_get, route_post, route_file, is_static, type_of_path,
}

-- The files with their content types.
abbrev pub IsAsset : String → Type 0
IsAsset path =
    ((path ≡ "www/index.html") × (type_of_path path ≡ "text/html; charset=utf-8"))
    ⊎ ((path ≡ "www/style.css") × (type_of_path path ≡ "text/css"))
    ⊎ ((path ≡ "www/app.js") × (type_of_path path ≡ "application/javascript"))
    ⊎ ((path ≡ "www/logo.svg") × (type_of_path path ≡ "image/svg+xml"))

-- Which reply is for which request, where `modem` is whether a test would start.
abbrev pub IsFor : Option Bool → String → String → Reply → Type 0
IsFor modem method path (file name) = (method ≡ "GET") × IsAsset name
IsFor modem method path restart = (method ≡ "POST") × (path ≡ "/api/restart")
IsFor modem method path test_refused = (method ≡ "POST") × (path ≡ "/api/lte/test") × (modem ≡ none)
IsFor modem method path (test begun) =
    (method ≡ "POST") × (path ≡ "/api/lte/test") × (modem ≡ some begun)
IsFor modem method path not_allowed = method ≢ "GET"
IsFor modem method path bad_request = ⊥
IsFor modem method path internal_error = ⊥
IsFor modem method path file_missing = ⊥
IsFor modem method path _ = method ≡ "GET"

module _ (modem : Option Bool) (method path : String) where
  abbrev Holds : Option Reply → Type 0
  Holds none = Unit
  Holds (some reply) = IsFor modem method path reply

  -- What a list of replies is for, so is what is found in it.
  lookup-Holds :
      (table : List (String × Reply))
      → All (λ row. Holds (some row.1)) table
      → Holds (lookup path table)
  unfolding lookup
  lookup-Holds [] h = tt
  lookup-Holds ((name, reply) ∷ table) (h, hs) = elim (Bool-cases (str_eq name path)) [
    | inl here ↦ rw here h
    | inr there ↦ rw there (lookup-Holds table hs)
  ]

  route_get-Holds : method ≡ "GET" → Holds (route_get path)
  unfolding route_get
  route_get-Holds get =
      lookup-Holds pages (get, (get, (get, (get, (get, (get, (get, (get, tt))))))))

  test-Holds :
      (found : Option Bool)
      → modem ≡ found
      → method ≡ "POST"
      → path ≡ "/api/lte/test"
      → Holds (some (elim found [ none ↦ test_refused | some begun ↦ test begun ]))
  test-Holds none at post here = (post, here, at)
  test-Holds (some begun) at post here = (post, here, at)

  route_post-Holds : method ≡ "POST" → Holds (route_post modem path)
  unfolding route_post
  route_post-Holds post = elim (Bool-cases (str_eq path "/api/restart")) [
    | inl here ↦ rw here (post, (eq_iff path "/api/restart").0 here)
    | inr there ↦ elim (Bool-cases (str_eq path "/api/lte/test")) [
      | inl asked ↦
          rw (there, asked) (test-Holds modem refl post ((eq_iff path "/api/lte/test").0 asked))
      | inr unknown ↦ rw (there, unknown) tt
    ]
  ]

  asset :
      (name : String) → path ≡ name → IsAsset (static_root ++ name) → IsAsset (static_root ++ path)
  asset name at h = subst (λ p. IsAsset (static_root ++ p)) (sym at) h

  is_static-IsAsset : is_static path ≡ true → IsAsset (static_root ++ path)
  unfolding is_static type_of_path
  is_static-IsAsset h = elim (Bool-cases (str_eq path "/index.html")) [
    | inl a ↦ asset "/index.html" ((eq_iff path "/index.html").0 a) (inl (refl, refl))
    | inr na ↦ elim (Bool-cases (str_eq path "/style.css")) [
      | inl b ↦ asset "/style.css" ((eq_iff path "/style.css").0 b) (inr (inl (refl, refl)))
      | inr nb ↦ elim (Bool-cases (str_eq path "/app.js")) [
        | inl c ↦ asset "/app.js" ((eq_iff path "/app.js").0 c) (inr (inr (inl (refl, refl))))
        | inr nc ↦ elim (Bool-cases (str_eq path "/logo.svg")) [
          | inl d ↦ asset "/logo.svg" ((eq_iff path "/logo.svg").0 d) (inr (inr (inr (refl, refl))))
          | inr nd ↦ absurd (ground (arith, h, na, nb, nc, nd))
        ]
      ]
    ]
  ]

  route_file-IsFor : method ≡ "GET" → IsFor modem method path (route_file path)
  unfolding route_file type_of_path
  route_file-IsFor get = elim (Bool-cases (str_eq path "/")) [
    | inl root ↦ rw root (get, inl (refl, refl))
    | inr other ↦ elim (Bool-cases (is_static path)) [
      | inl known ↦ rw (other, known) (get, is_static-IsAsset known)
      | inr unknown ↦ rw (other, unknown) get
    ]
  ]

  -- For every method and path: the page and its three assets are the only files that are served,
  -- each with its content type, and only to a GET; a restart and a test take a POST to their own
  -- path; a request that is not allowed is no GET.
  pub route-IsFor : IsFor modem method path (route modem method path)
  unfolding route
  route-IsFor = elim (Bool-cases (str_eq method "GET")) [
    | inl get ↦
        let is_get = (eq_iff method "GET").0 get in
        elim (Option-cases (route_get path)) [
          | inl missing ↦ rw (get, missing) (route_file-IsFor is_get)
          | inr (reply, found) ↦ rw (get, found) (subst Holds found (route_get-Holds is_get))
        ]
    | inr no_get ↦
        let other : method ≢ "GET" =
          λ at. absurd (ground (arith, no_get, (eq_iff method "GET").1 at)) in
        elim (Bool-cases (str_eq method "POST")) [
          | inl post ↦ elim (Option-cases (route_post modem path)) [
            | inl missing ↦ rw (no_get, post, missing) other
            | inr (reply, found) ↦
                rw (no_get, post, found)
                  (subst Holds found (route_post-Holds ((eq_iff method "POST").0 post)))
          ]
          | inr no_post ↦ rw (no_get, no_post) other
        ]
  ]
