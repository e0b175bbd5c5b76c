-- ===== src/Mqtt/Queue/Victim.antt =====
-- `_lowest_priority_index` of mqtt_manager.py: which message is given up for an event or response.
use connected_vehicle_health.Prelude.{
  ℕ, zero, suc, ◌≤◌, ◌<◌, ◌≡◌, refl, ap, ◌∙◌, true, false, none, some, List, [], ◌∷◌, arith,
  get_elem?, drop, All, Option-cases, inl, inr,
}
use connected_vehicle_health.Mqtt.Topic.{Kind, diagnostic, fast, slow, telemetry}
use connected_vehicle_health.Mqtt.Queue.{
  Entry, same_kind, last_index, first_found, lowest_priority_index, low_kinds,
}

-- The order in which kinds are given up: diagnostics first, events and responses never.
abbrev pub rank : Kind → ℕ
rank diagnostic = 0
rank fast = 1
rank slow = 2
rank telemetry = 3
rank _ = 4

abbrev AtLeast : ℕ → List Entry → Type 0
AtLeast n = All (λ e. n ≤ rank e.kind)

abbrev Without : Kind → List Entry → Type 0
Without w = All (λ e. same_kind e.kind w ≡ false)

last_index-none : (w : Kind) (q : List Entry) → last_index w q ≡ none → Without w q
unfolding last_index
last_index-none w [] h = tt
last_index-none w (e ∷ q) h = elim (Option-cases (last_index w q)) [
  | inl p ↦ (ground arith, last_index-none w q p)
  | inr (j, p) ↦ absurd (ground arith)
]

last_index-some :
    (w : Kind) (q : List Entry) (i : ℕ)
    → last_index w q ≡ some i
    → (e : Entry) × (get_elem? q i ≡ some e)
      × (same_kind e.kind w ≡ true)
      × Without w (drop (suc i) q)
unfolding last_index
last_index-some w [] i h = cc
last_index-some w (e ∷ q) i h = elim (Option-cases (last_index w q)) [
  | inl p ↦
      let start : zero ≡ i = ground arith in
      rw (← start) (e, refl, ground arith, last_index-none w q p)
  | inr (j, p) ↦
      let next : suc j ≡ i = ground arith in
      let (x, at, same, rest) = last_index-some w q j p in rw (← next) (x, at, same, rest)
]

module _ (w : Kind) (n : ℕ) (r : rank w ≡ n) (low : n < 4) where
  above_one : (k : Kind) → n ≤ rank k → same_kind k w ≡ false → suc n ≤ rank k
  unfolding same_kind
  above_one k h s = ground arith

  same_rank : (k : Kind) → same_kind k w ≡ true → rank k ≡ n
  unfolding same_kind
  same_rank k s = ground arith

  above : (q : List Entry) → AtLeast n q → Without w q → AtLeast (suc n) q
  above [] h s = tt
  above (e ∷ q) h s = (above_one e.kind h.0 s.0, above q h.1 s.1)

AtLeast-drop : (n i : ℕ) (q : List Entry) → AtLeast n q → AtLeast n (drop i q)
AtLeast-drop n zero q h = h
AtLeast-drop n (suc i) [] h = tt
AtLeast-drop n (suc i) (e ∷ q) h = AtLeast-drop n i q h.1

-- The kinds of a list have the ranks from `n` on, below 4.
abbrev Ranked : ℕ → List Kind → Type 0
Ranked n [] = Unit
Ranked n (w ∷ ws) = (rank w ≡ n) × (n < 4) × Ranked (suc n) ws

abbrev Victim : List Entry → ℕ → Type 0
Victim q i =
    (e : Entry) × (get_elem? q i ≡ some e)
    × (rank e.kind < 4)
    × AtLeast (rank e.kind) q
    × AtLeast (suc (rank e.kind)) (drop (suc i) q)

first_found-Victim :
    (ws : List Kind) (n : ℕ) (q : List Entry) (i : ℕ)
    → Ranked n ws
    → AtLeast n q
    → first_found ws q ≡ some i
    → Victim q i
unfolding first_found
first_found-Victim [] n q i r a h = cc
first_found-Victim (w ∷ ws) n q i r a h = elim (Option-cases (last_index w q)) [
  | inl p ↦
      first_found-Victim ws (suc n) q i r.2 (above w n r.0 r.1 q a (last_index-none w q p))
        (ground arith)
  | inr (j, p) ↦
      let same : j ≡ i = ground arith in
      let (e, at, k, rest) = last_index-some w q i (p ∙ ap some same) in
      let is_n : rank e.kind ≡ n = same_rank w n r.0 r.1 e.kind k in
      (
        e,
        at,
        rw is_n r.1,
        rw is_n a,
        rw is_n (above w n r.0 r.1 (drop (suc i) q) (AtLeast-drop n (suc i) q a) rest),
      )
]

any-AtLeast : (q : List Entry) → AtLeast 0 q
any-AtLeast [] = tt
any-AtLeast (e ∷ q) = (omega arith, any-AtLeast q)

-- What makes room for an event or a response is a message of the lowest class in the queue:
-- diagnostics before fast, slow and plain telemetry, never an event or a response. Of that class
-- it is the last in the queue: no message of its class, or a lower one, stands behind it.
pub lowest_priority_index_lem :
    (q : List Entry) (i : ℕ)
    → lowest_priority_index q ≡ some i
    → (e : Entry) × (get_elem? q i ≡ some e)
      × (rank e.kind < 4)
      × All (λ x. rank e.kind ≤ rank x.kind) q
      × All (λ x. rank e.kind < rank x.kind) (drop (suc i) q)
unfolding lowest_priority_index
lowest_priority_index_lem q i h =
    first_found-Victim low_kinds 0 q i
      (refl, omega arith, (refl, omega arith, (refl, omega arith, (refl, omega arith, tt))))
      (any-AtLeast q) h
