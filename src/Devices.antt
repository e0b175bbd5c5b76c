-- ===== src/Devices.antt =====
-- device_manager.py: the bounded registry of the devices that the TCP service has seen.
-- The wall clock, `iso_time()`, is an argument, and a log line is returned to the caller.
mod Evict
pub mod Bounds
pub mod Reads
mod Tests
use Prim.Native.String.{◌++◌}
use connected_vehicle_health.Prelude.{
  ℕ, ◌+◌, String, Option, none, some, List, [], ◌∷◌, length, leb, if◌then◌else◌,
}
use mathlib.Core.List
use connected_vehicle_health.Prelude.Assoc.{lookup, remove, modify}
use connected_vehicle_health.Prelude.TextOrder.{text_lt}
use connected_vehicle_health.Json.{Value, str, get_or, as_dict, py_str}

pub record Device : Type 0 where
  pub device_name : String
  pub node_id : String
  pub ip_address : String
  pub last_seen : String
  pub packet_count : ℕ
  pub latest_json : String

pub record DeviceManager : Type 0 where
  pub capacity : ℕ
  pub devices : List (String × Device)

unfoldable pub init : ℕ → DeviceManager
init capacity = record { capacity = capacity; devices = [] }

-- The loop of `_evict_oldest`, from the key and the time of the oldest device so far.
unfoldable pub scan_oldest : Option (String × String) → List (String × Device) → Option String
scan_oldest none [] = none
scan_oldest (some (key, seen)) [] = some key
scan_oldest none ((key, value) ∷ rest) = scan_oldest (some (key, value.last_seen)) rest
scan_oldest (some (oldest_key, oldest_seen)) ((key, value) ∷ rest) =
    scan_oldest
      (if text_lt value.last_seen oldest_seen
        then some (key, value.last_seen)
        else some (oldest_key, oldest_seen))
      rest

-- `_evict_oldest`
unfoldable pub evict_oldest : List (String × Device) → List (String × Device)
unfolding scan_oldest
evict_oldest devices = elim (scan_oldest none devices) [
  | none ↦ devices
  | some oldest_key ↦ remove oldest_key devices
]

-- The record of a device that was not known.
unfoldable pub fresh : String → String → String → Device
fresh node_id name ip = record {
  device_name = name;
  node_id = node_id;
  ip_address = ip;
  last_seen = "";
  packet_count = 0;
  latest_json = "";
}

-- The branch of `update` for an unknown device: make room, then insert its record.
unfoldable pub discover : String → String → String → DeviceManager → List (String × Device)
unfolding evict_oldest fresh
discover node_id name ip m =
    List.◌++◌ (if leb m.capacity (length m.devices) then evict_oldest m.devices else m.devices)
      ((node_id, fresh node_id name ip) ∷ [])

-- The assignments at the end of `update`.
unfoldable pub touch : String → String → String → String → Device → Device
touch now name ip payload device = record device {
  device_name = name;
  ip_address = ip;
  last_seen = now;
  packet_count = device.packet_count + 1;
  latest_json = payload;
}

-- The table once the device is known to be in it, and the line that is logged.
unfoldable pub registered :
    Option Device
    → String
    → String
    → String
    → DeviceManager
    → List (String × Device) × Option String
unfolding discover
registered none key name ip m =
    (discover key name ip m, some ("Device discovered: " ++ key ++ " (" ++ ip ++ ")"))
registered (some device) key name ip m = (m.devices, none)

module _ {N : Type 0} (render : Value N → String) where
  -- `_field`
  unfoldable pub device_field : Value N → String → Value N → Value N
  unfolding get_or as_dict
  device_field value key default = elim (as_dict value) [
    | none ↦ default
    | some fields ↦ get_or key default fields
  ]

  unfoldable pub node_id_of : String → Value N → String
  unfolding device_field py_str
  node_id_of ip parsed = py_str render (
      device_field parsed "device_id"
        (device_field parsed "node_id" (device_field parsed "id" (str ip))))

  unfoldable pub name_of : String → Value N → String
  unfolding device_field py_str
  name_of node_id parsed =
      py_str render (device_field parsed "device_name" (device_field parsed "name" (str node_id)))

  -- `update`, and the line that it logs; `parsed` is `Value.null` where the caller has `None`.
  unfoldable pub update :
      String → String → String → Value N → DeviceManager → DeviceManager × Option String
  unfolding registered touch node_id_of name_of
  update now ip payload parsed m =
      let key = node_id_of ip parsed in
      let name = name_of key parsed in
      let (devices, line) = registered (lookup key m.devices) key name ip m in
      (record m { devices = modify key (touch now name ip payload) devices }, line)

-- `list` and `count`
unfoldable pub list : DeviceManager → List Device
list m = List.map (λ e. e.1) m.devices

unfoldable pub count : DeviceManager → ℕ
count m = length m.devices
