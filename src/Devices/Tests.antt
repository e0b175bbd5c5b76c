-- ===== src/Devices/Tests.antt =====
-- Runs of device_manager.py with a registry of two devices, and the theorems at them.
use Prim.Native.Nat.{ℕ}
use connected_vehicle_health.Prelude.{
  ◌≡◌, refl, String, none, some, [], ◌∷◌, arith, str_eq, if◌then◌else◌,
}
use connected_vehicle_health.Prelude.Assoc.{lookup, remove, modify}
use connected_vehicle_health.Json.{Value, null, str, num, obj, end, field}
use connected_vehicle_health.Devices.{Device, DeviceManager, node_id_of, name_of, update}
use connected_vehicle_health.Devices.Evict.{NoneBefore}
use connected_vehicle_health.Devices.Bounds.{IsValid, update-IsValid}
use connected_vehicle_health.Devices.Reads.{lookup-update_self, update_evicts}

-- `str` of a number, as far as the tests need it.
abbrev render : Value ℕ → String
render _ = "7"

abbrev device : String → String → Device
device id seen = record {
  device_name = id;
  node_id = id;
  ip_address = "192.168.4.2";
  last_seen = seen;
  packet_count = 1;
  latest_json = "{}";
}

-- "a" was seen after "b".
abbrev full : DeviceManager
full = record {
  capacity = 2;
  devices = ("a", device "a" "2026-01-02") ∷ ("b", device "b" "2026-01-01") ∷ [];
}

abbrev packet : Value ℕ
packet = obj (field "device_id" (str "c") end)

-- A packet of a third device takes the place of "b".
update-full : update render "2026-01-03" "192.168.4.3" "{}" packet full ≡ (
  record full {
    devices =
        ("a", device "a" "2026-01-02")
        ∷ ("c", record (device "c" "2026-01-03") { ip_address = "192.168.4.3" })
        ∷ [];
  },
  some "Device discovered: c (192.168.4.3)",
)
unfolding update lookup remove modify
update-full = refl

-- A number as `node_id` is printed, and a client that sends none is known by its address.
node_id_fallbacks :
    (node_id_of render "10.0.0.9" (obj (field "node_id" (num 7) end)) ≡ "7")
    × (node_id_of render "10.0.0.9" null ≡ "10.0.0.9")
unfolding node_id_of
node_id_fallbacks = (refl, refl)

full-IsValid : IsValid full
unfolding lookup
full-IsValid = record {
  positive = omega arith;
  bounded = omega arith;
  distinct = (refl, (refl, tt));
}

update-IsValid_example : IsValid (update render "2026-01-03" "192.168.4.3" "{}" packet full).0
update-IsValid_example =
    update-IsValid render "2026-01-03" "192.168.4.3" "{}" packet full full-IsValid

-- "a" is known, and its second packet is counted.
abbrev known : Value ℕ
known = obj (field "device_id" (str "a") end)

lookup-update_self_example :
    lookup "a" (update render "2026-01-03" "192.168.4.3" "{}" known full).0.devices
    ≡ some (record (device "a" "2026-01-03") { ip_address = "192.168.4.3"; packet_count = 2 })
unfolding node_id_of name_of lookup
lookup-update_self_example =
    lookup-update_self render "2026-01-03" "192.168.4.3" "{}" known full full-IsValid

update_evicts_example :
    (k : String) × (d : Device) × (lookup k full.devices ≡ some d)
    × NoneBefore d.last_seen full.devices
    × ((j : String)
        → lookup j (update render "2026-01-03" "192.168.4.3" "{}" packet full).0.devices ≡ (
            if str_eq "c" j
            then some (record (device "c" "2026-01-03") { ip_address = "192.168.4.3" })
            else if str_eq k j
            then none
            else lookup j full.devices))
unfolding node_id_of name_of lookup
update_evicts_example =
    update_evicts render "2026-01-03" "192.168.4.3" "{}" packet full full-IsValid refl (omega arith)
