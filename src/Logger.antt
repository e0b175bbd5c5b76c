-- ===== src/Logger.antt =====
-- logger.py: the bounded in-memory log of the gateway, a list that becomes a ring when it is full.
-- The timestamp of an entry, `iso_time()`, is an argument; `print` is not modelled.
mod Rotate
pub mod Contents
pub mod History
mod Tests
use connected_vehicle_health.Prelude.{
  ℕ, zero, suc, ◌+◌, ◌-◌, ◌%◌, min, String, Option, none, some, List, [], ◌∷◌, ◌++◌, length,
  get_elem?, set, ltb, ◌==◌, if◌then◌else◌,
}
use connected_vehicle_health.Prelude.Int.{ℤ, at_least_zero}

-- One tuple of `_items`.
pub record Entry : Type 0 where
  pub timestamp : String
  pub level : String
  pub message : String

-- The fields of a `GatewayLogger`.
pub record GatewayLogger : Type 0 where
  pub capacity : ℕ
  pub items : List Entry
  pub next : ℕ

-- `GatewayLogger(capacity)`.
unfoldable pub init : ℕ → GatewayLogger
init capacity = record { capacity = capacity; items = []; next = 0 }

-- `_add`, given the entry. The assignment to `_items[_next]` raises an IndexError out of range,
-- and `none` stands for it.
unfoldable pub add : Entry → GatewayLogger → Option GatewayLogger
add entry l =
    if ltb (length l.items) l.capacity
    then some (record l { items = l.items ++ entry ∷ [] })
    else if ltb l.next (length l.items)
    then some (record l { items = set l.items l.next entry; next = (l.next + 1) % l.capacity })
    else none

unfoldable pub info : String → String → GatewayLogger → Option GatewayLogger
unfolding add
info now message = add (record { timestamp = now; level = "INFO"; message = message })

unfoldable pub warning : String → String → GatewayLogger → Option GatewayLogger
unfolding add
warning now message = add (record { timestamp = now; level = "WARNING"; message = message })

unfoldable pub error : String → String → GatewayLogger → Option GatewayLogger
unfolding add
error now message = add (record { timestamp = now; level = "ERROR"; message = message })

-- The loop of `entries` and of `trim`: the items at `(start + offset) % total`, for `left` offsets
-- from `offset` on; `none` is an index out of range.
unfoldable pub gather : List Entry → ℕ → ℕ → ℕ → Option (List Entry)
gather items start offset zero = some []
gather items start offset (suc left) = elim (get_elem? items ((start + offset) % length items)) [
  | none ↦ none
  | some item ↦ elim (gather items start (suc offset) left) [
    | none ↦ none
    | some result ↦ some (item ∷ result)
  ]
]

-- The index of the oldest record: `start` before it is moved.
unfoldable pub oldest : GatewayLogger → ℕ
oldest l = if length l.items == l.capacity then l.next else 0

-- `entries(limit)`, the dictionaries as records.
unfoldable pub entries : ℤ → GatewayLogger → Option (List Entry)
unfolding gather oldest
entries limit l =
    let total = length l.items in
    let count = min (at_least_zero limit) total in
    if count == 0 then some [] else gather l.items ((oldest l + total - count) % total) 0 count

-- `trim(keep)`; the remainder is taken only if there is an item.
unfoldable pub trim : ℤ → GatewayLogger → Option GatewayLogger
unfolding gather oldest
trim keep l =
    let total = length l.items in
    let count = min (at_least_zero keep) total in
    let start = if total == 0 then 0 else (oldest l + total - count) % total in
    if count == total then some l else elim (gather l.items start 0 count) [
      | none ↦ none
      | some retained ↦ some (record l { items = retained; next = 0 })
    ]
