-- ===== src/Mqtt/Queue/Important.antt =====
-- Events and command responses in the queue of mqtt_manager.py: telemetry never displaces one.
use connected_vehicle_health.Prelude.{
  ℕ, zero, suc, ◌≡◌, ◌≢◌, refl, ap, subst, ◌∙◌, true, false, none, some, List, [], ◌∷◌, ◌++◌, arith,
  All, Option-cases, Bool-cases, inl, inr, eq_iff, if◌then◌else◌,
}
use connected_vehicle_health.Config.{mqtt_response_topic}
use connected_vehicle_health.Mqtt.Topic.{Kind, response}
use connected_vehicle_health.Mqtt.Queue.{
  Entry, is_event, is_important, is_stale, same_kind, coalesce, last_index, first_found,
  lowest_priority_index, low_kinds, pop_at, insert_index, insert_at, insert_important,
}

-- The events and responses of a queue, in their order.
unfoldable pub important : List Entry → List Entry
important [] = []
important (e ∷ q) = if is_important e.kind then e ∷ important q else important q

abbrev pub NoneImportant : List Entry → Type 0
NoneImportant = All (λ e. is_important e.kind ≡ false)

-- The important messages stand in front, and a response has the response topic.
abbrev pub IsOrdered : List Entry → Type 0
IsOrdered [] = Unit
IsOrdered (e ∷ q) =
    (is_important e.kind ≡ false → NoneImportant q)
    × (e.kind ≡ response → e.topic ≡ mqtt_response_topic)
    × IsOrdered q

-- What `enqueue` and `_enqueue_priority` hand over: only a response has the response topic.
pub record IsAddressed (e : Entry) : Type 0 where
  pub responds : e.kind ≡ response → e.topic ≡ mqtt_response_topic
  pub reports : e.kind ≢ response → e.topic ≢ mqtt_response_topic

pub important-low : (q : List Entry) → NoneImportant q → important q ≡ []
unfolding important
important-low [] h = refl
important-low (e ∷ q) h = ground (arith, important-low q h.1)

stale_low :
    (new e : Entry)
    → (e.kind ≡ response → e.topic ≡ mqtt_response_topic)
    → new.topic ≢ mqtt_response_topic
    → is_stale new.topic e ≡ true
    → is_important e.kind ≡ false
unfolding is_stale is_important is_event
stale_low new e v ne h = ground (arith, eq_iff e.topic new.topic)

module _ (new : Entry) (low : is_important new.kind ≡ false)
    (ne : new.topic ≢ mqtt_response_topic) where
  low-coalesce : (q q' : List Entry) → NoneImportant q → coalesce new q ≡ some q' → NoneImportant q'
  unfolding coalesce
  low-coalesce [] q' n h = cc
  low-coalesce (e ∷ q) q' n h = elim (Option-cases (coalesce new q)) [
    | inl p ↦ ground arith
    | inr (r, p) ↦ ground (arith, low-coalesce q r n.1 p)
  ]

  pub important-coalesce :
      (q q' : List Entry) → IsOrdered q → coalesce new q ≡ some q' → important q' ≡ important q
  unfolding coalesce important
  important-coalesce [] q' v h = cc
  important-coalesce (e ∷ q) q' v h = elim (Option-cases (coalesce new q)) [
    | inl p ↦ ground (arith, stale_low new e v.1 ne)
    | inr (r, p) ↦ ground (arith, important-coalesce q r v.2 p)
  ]

  pub IsOrdered-coalesce :
      (new.kind ≢ response)
      → (q q' : List Entry) → IsOrdered q
      → coalesce new q ≡ some q'
      → IsOrdered q'
  unfolding coalesce
  IsOrdered-coalesce nr [] q' v h = cc
  IsOrdered-coalesce nr (e ∷ q) q' v h = elim (Option-cases (coalesce new q)) [
    | inl p ↦ elim (Bool-cases (is_stale new.topic e)) [
      | inl st ↦
          let same : new ∷ q ≡ q' = ground arith in
          subst IsOrdered same (λ _. v.0 (stale_low new e v.1 ne st), λ k. absurd (nr k), v.2)
      | inr fresh ↦ absurd (ground arith)
    ]
    | inr (r, p) ↦
        let same : e ∷ r ≡ q' = ground arith in
        subst IsOrdered same (λ l. low-coalesce q r (v.0 l) p, v.1, IsOrdered-coalesce nr q r v.2 p)
  ]

module _ (wanted : Kind) (low : is_important wanted ≡ false) where
  same_low : (k : Kind) → same_kind k wanted ≡ true → is_important k ≡ false
  unfolding same_kind is_important
  same_low k h = ground arith

  low-pop : (i : ℕ) (q : List Entry) → NoneImportant q → NoneImportant (pop_at i q)
  unfolding pop_at
  low-pop i [] n = tt
  low-pop zero (e ∷ q) n = n.1
  low-pop (suc i) (e ∷ q) n = (n.0, low-pop i q n.1)

  important-pop :
      (q : List Entry) (i : ℕ) → last_index wanted q ≡ some i → important (pop_at i q) ≡ important q
  unfolding last_index pop_at important
  important-pop [] i h = cc
  important-pop (e ∷ q) i h = elim (Option-cases (last_index wanted q)) [
    | inl p ↦ ground (arith, same_low e.kind)
    | inr (r, p) ↦ ground (arith, important-pop q r p)
  ]

  IsOrdered-pop : (q : List Entry) (i : ℕ) → IsOrdered q → IsOrdered (pop_at i q)
  unfolding pop_at
  IsOrdered-pop [] i v = tt
  IsOrdered-pop (e ∷ q) zero v = v.2
  IsOrdered-pop (e ∷ q) (suc i) v = (λ l. low-pop i q (v.0 l), v.1, IsOrdered-pop q i v.2)

found_low :
    (kinds : List Kind)
    → All (λ k. is_important k ≡ false) kinds
    → (q : List Entry) (i : ℕ) → first_found kinds q ≡ some i
    → IsOrdered q
    → (important (pop_at i q) ≡ important q) × IsOrdered (pop_at i q)
unfolding first_found
found_low [] low q i h v = cc
found_low (k ∷ kinds) low q i h v = elim (Option-cases (last_index k q)) [
  | inl p ↦ found_low kinds low.1 q i (ground arith) v
  | inr (j, p) ↦
      let same : j ≡ i = ground arith in
      (important-pop k low.0 q i (p ∙ ap some same), IsOrdered-pop k low.0 q i v)
]

-- Making room in an ordered queue takes none of the events and responses.
pub evict-important :
    (q : List Entry) (i : ℕ)
    → lowest_priority_index q ≡ some i
    → IsOrdered q
    → (important (pop_at i q) ≡ important q) × IsOrdered (pop_at i q)
unfolding lowest_priority_index is_important
evict-important q i h v = found_low low_kinds (refl, (refl, (refl, (refl, tt)))) q i h v

-- No room can be made only where every entry is an event or a response.
pub last_index-none :
    (wanted : Kind) (q : List Entry)
    → last_index wanted q ≡ none
    → All (λ e. same_kind e.kind wanted ≡ false) q
unfolding last_index
last_index-none wanted [] h = tt
last_index-none wanted (e ∷ q) h = elim (Option-cases (last_index wanted q)) [
  | inl p ↦ (ground arith, last_index-none wanted q p)
  | inr (j, p) ↦ absurd (ground arith)
]

module _ (new : Entry) (high : is_important new.kind ≡ true) where
  low-insert : (q : List Entry) → NoneImportant q → insert_important new q ≡ new ∷ q
  unfolding insert_important insert_at insert_index
  low-insert [] n = refl
  low-insert (e ∷ q) n = ground arith

  pub important-insert :
      (q : List Entry) → IsOrdered q → important (insert_important new q) ≡ important q ++ new ∷ []
  unfolding insert_important insert_at insert_index important
  important-insert [] v = ground arith
  important-insert (e ∷ q) v = ground (arith, important-insert q v.2, important-low q)

  pub IsOrdered-insert :
      IsAddressed new → (q : List Entry) → IsOrdered q → IsOrdered (insert_important new q)
  unfolding insert_important insert_at insert_index
  IsOrdered-insert a [] v = (λ l. absurd (cc), a.responds, tt)
  IsOrdered-insert a (e ∷ q) v = elim (Bool-cases (is_important e.kind)) [
    | inl h ↦ rw (h) (λ l. absurd (cc), v.1, IsOrdered-insert a q v.2)
    | inr l ↦ rw (l) (λ l. absurd (cc), a.responds, v)
  ]
