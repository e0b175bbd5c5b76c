-- ===== src/Api/Handler/Served.antt =====
-- What `lambda_handler` of lambda_function.py can reply.
use connected_vehicle_health.Prelude.{
  ℕ, ◌≤◌, ◌≡◌, refl, ◌⊎◌, inl, inr, String, Bool, true, false, Option, none, some, List, [], ◌∷◌,
  if◌then◌else◌, arith, str_eq, eq_iff, Bool-cases, ◌*◌, Option-cases,
}
use connected_vehicle_health.Prelude.Int.{ℤ, pos, ◌-ℤ◌}
use connected_vehicle_health.Json.{Value, Fields, str, get, get_or}
use connected_vehicle_health.Api.Values.{Numbers}
use connected_vehicle_health.Api.PyText.{Unicode}
use connected_vehicle_health.Text.Search.{starts_with, ends_with, occurs_in}
use connected_vehicle_health.Api.Event.{
  last_segment, dict_or_empty, device_id_of, route_of, minutes_of_query, as_text,
}
use connected_vehicle_health.Api.Handler.{
  Settings, Query, Reply, preflight, file, history, no_records, no_telemetry, failed,
  content_type_of, file_response, asset_response, on_records, history_reply, maintenance_reply,
  trip_reply, report_reply, all_of, reply_to, dispatch, lambda_handler,
}

minutes-bounds :
    {N : Type 0} (is_zero : N → Bool) (int_of_value : Value N → Option ℤ) (query : Fields N)
    → (1 ≤ minutes_of_query is_zero int_of_value query)
      × (minutes_of_query is_zero int_of_value query ≤ 1440)
unfolding minutes_of_query
minutes-bounds is_zero int_of_value query =
    elim (Option-cases (int_of_value (get_or "minutes" (str "60") query))) [
      | inl h ↦ rw (minutes_of_query, h) (omega arith, omega arith)
      | inr (n, h) ↦ rw (minutes_of_query, h) (omega arith, omega arith)
    ]

-- The files of the frontend that are served, each with its content type.
abbrev pub IsPublic : String → String → Type 0
IsPublic name content_type =
    ((name ≡ "index.html") × (content_type ≡ "text/html; charset=utf-8"))
    ⊎ (((name ≡ "style.css") × (content_type ≡ "text/css; charset=utf-8"))
        ⊎ (((name ≡ "app.js") ⊎ (name ≡ "config.js"))
            × (content_type ≡ "application/javascript; charset=utf-8")))

asset-IsPublic :
    (name content_type : String)
    → content_type_of name ≡ some content_type
    → IsPublic name content_type
unfolding content_type_of
asset-IsPublic name content_type h = elim (Bool-cases (str_eq name "style.css")) [
  | inl style ↦ inr (inl ((eq_iff name "style.css").0 style, ground (arith, h, style)))
  | inr other ↦ elim (Bool-cases (str_eq name "app.js")) [
    | inl app ↦ inr (inr (inl ((eq_iff name "app.js").0 app), ground (arith, h, other, app)))
    | inr no_app ↦ elim (Bool-cases (str_eq name "config.js")) [
      | inl config ↦
          inr (
            inr
              (inr ((eq_iff name "config.js").0 config), ground (arith, h, other, no_app, config)))
      | inr none_of_them ↦ absurd (ground (arith, h, other, no_app, none_of_them))
    ]
  ]
]

-- Only the public files are read. A history is what the table gives for the device, the limit and
-- the last minutes, of which there are one to 1440; and "no records" is said of a device for which
-- the table gives none.
unfoldable pub Served :
    {N : Type 0}
    → ℕ
    → ℕ
    → (String → Option String)
    → (Query N → Option (List (Fields N)))
    → Reply N
    → Type 0
Served limit now_ms read table (file name content_type body) =
    IsPublic name content_type × (read name ≡ some body)
Served limit now_ms read table (history id minutes query records) =
    (1 ≤ minutes)
    × (minutes ≤ 1440)
    × (table query ≡ some records)
    × (query ≡ record {
      device_id = id;
      limit = limit;
      start_ms = some (pos now_ms -ℤ pos (minutes * 60000));
    })
Served limit now_ms read table (no_records id) =
    (limit : ℕ) × (table (record { device_id = id; limit = limit; start_ms = none }) ≡ some [])
Served limit now_ms read table (no_telemetry id) =
    (limit : ℕ) × (table (record { device_id = id; limit = limit; start_ms = none }) ≡ some [])
Served limit now_ms read table _ = Unit

module _ {N : Type 0} (limit now_ms : ℕ) (read : String → Option String)
    (table : Query N → Option (List (Fields N))) where
  if-Served :
      (b : Bool) (x y : Reply N)
      → Served limit now_ms read table x
      → Served limit now_ms read table y
      → Served limit now_ms read table (if b then x else y)
  if-Served true x y p q = p
  if-Served false x y p q = q

  option-Served {ℓ} :
      {A : Type ℓ} (o : Option A) (reply : A → Reply N)
      → ((a : A) → o ≡ some a → Served limit now_ms read table (reply a))
      → Served limit now_ms read table (elim o [ none ↦ failed | some a ↦ reply a ])
  unfolding Served
  option-Served none reply p = tt
  option-Served (some a) reply p = p a refl

  page-Served :
      (name content_type : String)
      → IsPublic name content_type
      → Served limit now_ms read table (file_response read name content_type)
  unfolding file_response Served
  page-Served name content_type allowed = elim (Option-cases (read name)) [
    | inl h ↦ rw (file_response, h) tt
    | inr (body, h) ↦ rw (file_response, h) (allowed, h)
  ]

  asset-Served : (asset : String) → Served limit now_ms read table (asset_response read asset)
  unfolding asset_response Served
  asset-Served asset = elim (Option-cases (content_type_of asset)) [
    | inl h ↦ rw (asset_response, h) tt
    | inr (content_type, h) ↦
        rw (asset_response, h)
          (page-Served asset content_type (asset-IsPublic asset content_type h))
  ]

module _ (A : Numbers) (u : Unicode) (settings : Settings) where
  open A use {Num, is_zero}

  module _ (render : Value Num → String) (loads : String → Option (Value Num))
      (int_of : Fields Num → Option ℤ) (int_of_value : Value Num → Option ℤ)
      (read : String → Option String) (table : Query Num → Option (List (Fields Num)))
      (now_ms : ℕ) where
    abbrev Fine : Reply Num → Type 0
    Fine = Served settings.query_limit now_ms read table

    minutes_ago :
        (id : Value Num) (minutes : ℕ)
        → ◌≡◌ {A = Query Num}
            record {
              device_id = id;
              limit = settings.query_limit;
              start_ms = some (pos now_ms -ℤ pos (minutes * 60 * 1000));
            }
            record {
              device_id = id;
              limit = settings.query_limit;
              start_ms = some (pos now_ms -ℤ pos (minutes * 60000));
            }
    minutes_ago id minutes =
        let same : minutes * 60 * 1000 ≡ minutes * 60000 = omega arith in
        λ i. record {
          device_id = id;
          limit = settings.query_limit;
          start_ms = some (pos now_ms -ℤ pos (same i));
        }

    history_reply-Served :
        (id : Value Num) (minutes : ℕ)
        → (1 ≤ minutes) × (minutes ≤ 1440)
        → Fine (
            history_reply A u settings render loads int_of int_of_value read table now_ms id
              minutes)
    unfolding history_reply on_records
    history_reply-Served id minutes bounds =
        option-Served settings.query_limit now_ms read table _ (history id minutes _)
          (λ rs h. unfold Served in (bounds.0, bounds.1, h, minutes_ago id minutes))

    maintenance_reply-Served :
        (id : Value Num) (limit : ℕ) (rs : List (Fields Num))
        → table (record { device_id = id; limit = limit; start_ms = none }) ≡ some rs
        → Fine (
            maintenance_reply A u settings render loads int_of int_of_value read table now_ms id rs)
    unfolding maintenance_reply Served
    maintenance_reply-Served id limit [] h = (limit, h)
    maintenance_reply-Served id limit (r ∷ rs) h = tt

    trip_reply-Served :
        (id : Value Num) (limit : ℕ) (rs : List (Fields Num))
        → table (record { device_id = id; limit = limit; start_ms = none }) ≡ some rs
        → Fine (trip_reply A u settings render loads int_of int_of_value read table now_ms id rs)
    unfolding trip_reply Served
    trip_reply-Served id limit [] h = (limit, h)
    trip_reply-Served id limit (r ∷ rs) h = tt

    report_reply-Served :
        (id : Value Num) (path : String) (limit : ℕ) (rs : List (Fields Num))
        → table (record { device_id = id; limit = limit; start_ms = none }) ≡ some rs
        → Fine (
            report_reply A u settings render loads int_of int_of_value read table now_ms id path rs)
    unfolding report_reply Served
    report_reply-Served id path limit [] h = (limit, h)
    report_reply-Served id path limit (r ∷ rs) h = tt

    reply_to-Served :
        (event : Fields Num) (id : Value Num) (path : String)
        → Fine
            (reply_to A u settings render loads int_of int_of_value read table now_ms event id path)
    unfolding reply_to on_records all_of
    reply_to-Served event id path =
        if-Served settings.query_limit now_ms read table _ _ _
          (page-Served settings.query_limit now_ms read table "index.html"
            "text/html; charset=utf-8" (inl (refl, refl)))
          (if-Served settings.query_limit now_ms read table (occurs_in "/assets/" path) _ _
            (asset-Served settings.query_limit now_ms read table (last_segment path))
            (if-Served settings.query_limit now_ms read table (ends_with "/history" path) _ _
              (option-Served settings.query_limit now_ms read table
                (dict_or_empty is_zero (get "queryStringParameters" event)) _
                (λ query _.
                  history_reply-Served id (minutes_of_query is_zero int_of_value query)
                    (minutes-bounds is_zero int_of_value query)))
              (if-Served settings.query_limit now_ms read table (ends_with "/maintenance" path) _ _
                (option-Served settings.query_limit now_ms read table _ _
                  (λ rs h. maintenance_reply-Served id settings.maintenance_query_limit rs h))
                (if-Served settings.query_limit now_ms read table (ends_with "/trip" path) _ _
                  (option-Served settings.query_limit now_ms read table _ _
                    (λ rs h. trip_reply-Served id settings.trip_query_limit rs h))
                  (option-Served settings.query_limit now_ms read table _ _
                    (λ rs h. report_reply-Served id path settings.query_limit rs h))))))

    preflight-Served : Fine preflight
    unfolding Served
    preflight-Served = tt

    dispatch-Served :
        (event : Fields Num) (id route_key path : Value Num)
        → Fine (
            dispatch A u settings render loads int_of int_of_value read table now_ms event id
              route_key path)
    unfolding dispatch
    dispatch-Served event id route_key path =
        option-Served settings.query_limit now_ms read table (as_text route_key) _ (λ key _.
          if-Served settings.query_limit now_ms read table (starts_with "OPTIONS " key) _ _
            preflight-Served
            (option-Served settings.query_limit now_ms read table (as_text path) _
              (λ p _. reply_to-Served event id p)))

    -- For every event, table, clock and set of files: a file that the handler replies with is the
    -- page, style.css, app.js or config.js, with its content type and as it is read; a history is
    -- what the table gives for a query of at most QUERY_LIMIT records of the device that it names,
    -- from 1 to 1440 minutes before now on; and a reply that there are no records follows a query of
    -- the device that it names, without a start, that gave none.
    pub lambda_handler-Served :
        (event : Fields Num)
        → Served settings.query_limit now_ms read table
            (lambda_handler A u settings render loads int_of int_of_value read table now_ms event)
    unfolding lambda_handler
    lambda_handler-Served event =
        option-Served settings.query_limit now_ms read table
          (device_id_of is_zero settings.default_device_id event) _
          (λ id _.
            option-Served settings.query_limit now_ms read table (route_of is_zero event) _
              (λ route _. dispatch-Served event id (route.0) (route.1)))
