-- ===== src/Devices/Reads.antt =====
-- What the registry of device_manager.py holds for each device after an `update`.
use mathlib.Core.List.{◌++◌}
use native.Mathlib.Decide.{dec_lt}
use connected_vehicle_health.Prelude.{
  ◌≤◌, ◌<◌, ◌≡◌, ◌≢◌, refl, ◌∙◌, String, Option, none, some, List, [], ◌∷◌, ◌⊎◌, arith, length,
  eq_iff, eq_refl, inl, inr, if◌then◌else◌, str_eq, false, ℕ, ◌+◌, ap, sym, Bool-cases,
}
use connected_vehicle_health.Prelude.Assoc.{
  lookup, remove, modify, lookup-append, lookup-remove, lookup-modify,
}
use connected_vehicle_health.Json.{Value}
use connected_vehicle_health.Devices.{
  Device, DeviceManager, fresh, discover, registered, touch, node_id_of, name_of, update,
}
use connected_vehicle_health.Devices.Evict.{NoneBefore}
use connected_vehicle_health.Devices.Bounds.{IsValid, discover_room, discover_evicts}

-- The record that an update changes: the stored one, or an empty one.
abbrev pub before : Option Device → String → String → String → Device
before (some d) key name ip = d
before none key name ip = fresh key name ip

-- The packets that were counted and the id that was stored before.
abbrev pub packets_before : Option Device → ℕ
packets_before (some d) = d.packet_count
packets_before none = 0

abbrev pub id_before : Option Device → String → String
id_before (some d) key = d.node_id
id_before none key = key

touch-before :
    (now name ip payload key : String) (o : Option Device)
    → touch now name ip payload (before o key name ip) ≡ record {
      device_name = name;
      node_id = id_before o key;
      ip_address = ip;
      last_seen = now;
      packet_count = packets_before o + 1;
      latest_json = payload;
    }
unfolding touch fresh
touch-before now name ip payload key none = refl
touch-before now name ip payload key (some d) = refl

str_eq_ne : {s t : String} → s ≢ t → str_eq s t ≡ false
str_eq_ne {s} {t} h = ground (arith, eq_iff s t)

lookup-snoc_ne :
    (m : List (String × Device)) (j key : String) (d : Device)
    → key ≢ j
    → lookup j (m ++ (key, d) ∷ []) ≡ lookup j m
lookup-snoc_ne m j key d h = ground (arith, lookup-append j m key d, eq_iff key j)

lookup-snoc_new :
    (m : List (String × Device)) (key : String) (d : Device)
    → lookup key m ≡ none
    → lookup key (m ++ (key, d) ∷ []) ≡ some d
lookup-snoc_new m key d h = ground (arith, lookup-append key m key d, eq_refl key)

module _ (key name ip : String) (m : DeviceManager) (v : IsValid m) where
  lookup-discover_self :
      lookup key m.devices ≡ none → lookup key (discover key name ip m) ≡ some (fresh key name ip)
  lookup-discover_self new = elim (dec_lt (length m.devices) m.capacity) [
    | yes p ↦
        rw (discover_room key name ip m p) (lookup-snoc_new m.devices key (fresh key name ip) new)
    | no p ↦
        let (k, d, e, found, oldest) = discover_evicts key name ip m v new (omega arith) in
        rw e (
          lookup-snoc_new (remove k m.devices) key (fresh key name ip)
            (ground (arith, lookup-remove k key m.devices v.distinct)))
  ]

  lookup-registered_self :
      (o : Option Device)
      → lookup key m.devices ≡ o
      → lookup key (registered o key name ip m).0 ≡ some (before o key name ip)
  unfolding registered
  lookup-registered_self none e = lookup-discover_self e
  lookup-registered_self (some d) e = e

  lookup-registered_ne :
      (j : String) (o : Option Device)
      → lookup key m.devices ≡ o
      → key ≢ j
      → (o ≢ none) ⊎ (length m.devices < m.capacity)
      → lookup j (registered o key name ip m).0 ≡ lookup j m.devices
  unfolding registered
  lookup-registered_ne j (some d) e ne h = refl
  lookup-registered_ne j none e ne (inl known) = absurd (known refl)
  lookup-registered_ne j none e ne (inr room) =
      rw (discover_room key name ip m room) (lookup-snoc_ne m.devices j key (fresh key name ip) ne)

  registered_evicts :
      (o : Option Device)
      → lookup key m.devices ≡ o
      → o ≡ none
      → m.capacity ≤ length m.devices
      → (k : String) × (d : Device) × (lookup k m.devices ≡ some d)
        × NoneBefore d.last_seen m.devices
        × ((j : String)
            → key ≢ j
            → lookup j (registered o key name ip m).0
              ≡ (if str_eq k j then none else lookup j m.devices))
  unfolding registered
  registered_evicts (some d) e new full = cc
  registered_evicts none e new full =
      let (k, d, same, found, oldest) = discover_evicts key name ip m v e full in
      (
        k,
        d,
        found,
        oldest,
        λ j ne. rw same (
            lookup-snoc_ne (remove k m.devices) j key (fresh key name ip) ne
            ∙ lookup-remove k j m.devices v.distinct),
      )

  touched_ne :
      (f : Device → Device) (j : String) (l : List (String × Device))
      → key ≢ j
      → lookup j (modify key f l) ≡ lookup j l
  touched_ne f j l ne = ground (arith, lookup-modify key j f l, eq_iff key j)

  touched_self :
      (f : Device → Device) (l : List (String × Device)) (d : Device)
      → lookup key l ≡ some d
      → lookup key (modify key f l) ≡ some (f d)
  touched_self f l d h = ground (arith, lookup-modify key key f l, eq_refl key)

module _ {N : Type 0} (render : Value N → String) (now ip payload : String) (parsed : Value N)
    (m : DeviceManager) (v : IsValid m) where
  abbrev key : String
  key = node_id_of render ip parsed

  abbrev name : String
  name = name_of render key parsed

  abbrev after : DeviceManager
  after = (update render now ip payload parsed m).0

  -- After an `update` the device has the name, the address and the payload of this packet, and was
  -- last seen now. It has one packet more than were stored for it, or one if it was not known, and
  -- the id that was stored for it, or that of this packet.
  pub lookup-update_self :
      lookup key after.devices
      ≡ some (record {
        device_name = name;
        node_id = id_before (lookup key m.devices) key;
        ip_address = ip;
        last_seen = now;
        packet_count = packets_before (lookup key m.devices) + 1;
        latest_json = payload;
      })
  unfolding update
  lookup-update_self =
      touched_self key name ip m v (touch now name ip payload)
        (registered (lookup key m.devices) key name ip m).0 _
        (lookup-registered_self key name ip m v (lookup key m.devices) refl)
      ∙ ap some (touch-before now name ip payload key (lookup key m.devices))

  -- If the device was known, or there was room for it, no other device's record changes.
  pub lookup-update_ne :
      (j : String)
      → key ≢ j
      → (lookup key m.devices ≢ none) ⊎ (length m.devices < m.capacity)
      → lookup j after.devices ≡ lookup j m.devices
  unfolding update
  lookup-update_ne j ne h =
      touched_ne key name ip m v (touch now name ip payload) j
        (registered (lookup key m.devices) key name ip m).0 ne
      ∙ lookup-registered_ne key name ip m v j (lookup key m.devices) refl ne h

  -- The record of a device that was not known, after its first packet.
  abbrev first_record : Device
  first_record = record {
    device_name = name;
    node_id = key;
    ip_address = ip;
    last_seen = now;
    packet_count = 1;
    latest_json = payload;
  }

  others-evicted :
      lookup key m.devices ≡ none
      → m.capacity ≤ length m.devices
      → (k : String) × (d : Device) × (lookup k m.devices ≡ some d)
        × NoneBefore d.last_seen m.devices
        × ((j : String)
            → key ≢ j
            → lookup j after.devices ≡ (if str_eq k j then none else lookup j m.devices))
  unfolding update
  others-evicted new full =
      let (k, d, found, oldest, others) =
        registered_evicts key name ip m v (lookup key m.devices) refl new full in
      (
        k,
        d,
        found,
        oldest,
        λ j ne.
            touched_ne key name ip m v (touch now name ip payload) j
              (registered (lookup key m.devices) key name ip m).0 ne
            ∙ others j ne,
      )

  at_key :
      (j k : String)
      → lookup key m.devices ≡ none
      → (key ≢ j → lookup j after.devices ≡ (if str_eq k j then none else lookup j m.devices))
      → lookup j after.devices ≡ (
          if str_eq key j
          then some first_record
          else if str_eq k j
          then none
          else lookup j m.devices)
  at_key j k new others = elim (Bool-cases (str_eq key j)) [
    | inl same ↦ rw (same, sym ((eq_iff key j).0 same), lookup-update_self, new) refl
    | inr differs ↦ rw differs (others (λ e. absurd (ground (arith, differs, e, eq_iff key j))))
  ]

  -- A new device in a full registry takes the place of one that was last seen before no other: the
  -- new one has the name, the address, the time and the payload of its first packet and a count of
  -- one, the other is gone, and all the rest keep their records.
  pub update_evicts :
      lookup key m.devices ≡ none
      → m.capacity ≤ length m.devices
      → (k : String) × (d : Device) × (lookup k m.devices ≡ some d)
        × NoneBefore d.last_seen m.devices
        × ((j : String)
            → lookup j after.devices ≡ (
                if str_eq key j
                then some first_record
                else if str_eq k j
                then none
                else lookup j m.devices))
  update_evicts new full =
      let (k, d, found, oldest, others) = others-evicted new full in
      (k, d, found, oldest, λ j. at_key j k new (others j))
