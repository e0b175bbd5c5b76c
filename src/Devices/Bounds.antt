-- ===== src/Devices/Bounds.antt =====
-- device_manager.py never holds more devices than its capacity, nor one device twice.
use mathlib.Core.List.{◌++◌}
use native.Mathlib.Decide.{dec_lt}
use connected_vehicle_health.Prelude.{
  ◌≤◌, ◌<◌, ◌≡◌, ◌≢◌, refl, ap, ◌∙◌, String, Option, none, some, [], ◌∷◌, arith, length,
  length-append,
}
use connected_vehicle_health.Prelude.Assoc.{
  lookup, remove, modify, Distinct, lookup-remove, length-modify, length-remove, modify-Distinct,
  remove-Distinct, append-Distinct,
}
use connected_vehicle_health.Json.{Value}
use connected_vehicle_health.Devices.{
  Device, DeviceManager, evict_oldest, fresh, discover, registered, touch, node_id_of, name_of,
  update,
}
use connected_vehicle_health.Devices.Evict.{NoneBefore, evict-oldest_lem}

pub record IsValid (m : DeviceManager) : Type 0 where
  pub positive : 0 < m.capacity
  pub bounded : length m.devices ≤ m.capacity
  pub distinct : Distinct m.devices

module _ (key name ip : String) (m : DeviceManager) where
  pub discover_room :
      length m.devices < m.capacity
      → discover key name ip m ≡ m.devices ++ (key, fresh key name ip) ∷ []
  unfolding discover
  discover_room h = ground arith

  pub discover_full :
      m.capacity ≤ length m.devices
      → discover key name ip m ≡ evict_oldest m.devices ++ (key, fresh key name ip) ∷ []
  unfolding discover
  discover_full h = ground arith

module _ (key name ip : String) (m : DeviceManager) (v : IsValid m)
    (new : lookup key m.devices ≡ none) where
  not_empty : m.capacity ≤ length m.devices → m.devices ≢ []
  not_empty h e = omega (arith, v.positive, ap length e)

  -- A full table loses exactly one device, which was last seen before no other, and the new
  -- device is put in its place.
  pub discover_evicts :
      m.capacity ≤ length m.devices
      → (k : String) × (d : Device) × (discover key name ip m
          ≡ remove k m.devices ++ (key, fresh key name ip) ∷ [])
        × (lookup k m.devices ≡ some d)
        × NoneBefore d.last_seen m.devices
  discover_evicts h =
      let (k, d, e, found, oldest) = evict-oldest_lem m.devices v.distinct (not_empty h) in
      (
        k,
        d,
        discover_full key name ip m h ∙ ap (λ t. t ++ (key, fresh key name ip) ∷ []) e,
        found,
        oldest,
      )

  -- The table when the new device has been inserted: a place was free, or was made free.
  pub discover-IsValid :
      (length (discover key name ip m) ≤ m.capacity) × Distinct (discover key name ip m)
  discover-IsValid = elim (dec_lt (length m.devices) m.capacity) [
    | yes p ↦ rw (discover_room key name ip m p) (
      omega (arith, length-append m.devices ((key, fresh key name ip) ∷ [])),
      append-Distinct m.devices key (fresh key name ip) v.distinct new,
    )
    | no p ↦
        let (k, d, e, found, oldest) = discover_evicts (omega arith) in
        rw e (
          omega (
            arith,
            v.bounded,
            length-append (remove k m.devices) ((key, fresh key name ip) ∷ []),
            length-remove k m.devices d found,
          ),
          append-Distinct (remove k m.devices) key (fresh key name ip)
              (remove-Distinct k m.devices v.distinct)
              (ground (arith, lookup-remove k key m.devices v.distinct)),
        )
  ]

registered-IsValid :
    (f : Device → Device) (key name ip : String) (m : DeviceManager)
    → IsValid m
    → (o : Option Device) → lookup key m.devices ≡ o
    → IsValid (record m { devices = modify key f (registered o key name ip m).0 })
unfolding registered
registered-IsValid f key name ip m v (some d) e = record {
  positive = v.positive;
  bounded = omega (arith, v.bounded, length-modify key f m.devices);
  distinct = modify-Distinct key f m.devices v.distinct;
}
registered-IsValid f key name ip m v none e =
    let (bounded, distinct) = discover-IsValid key name ip m v e in
    record {
      positive = v.positive;
      bounded = omega (arith, length-modify key f (discover key name ip m));
      distinct = modify-Distinct key f (discover key name ip m) distinct;
    }

module _ {N : Type 0} (render : Value N → String) where
  -- `update` keeps the registry within its capacity and each device in it once, whatever arrives.
  pub update-IsValid :
      (now ip payload : String) (parsed : Value N) (m : DeviceManager)
      → IsValid m
      → IsValid (update render now ip payload parsed m).0
  update-IsValid now ip payload parsed m v =
      unfold update in
      registered-IsValid
        (touch now (name_of render (node_id_of render ip parsed) parsed) ip payload)
        (node_id_of render ip parsed) (name_of render (node_id_of render ip parsed) parsed) ip m v
        (lookup (node_id_of render ip parsed) m.devices) refl
