-- ===== src/Tcp/Tests.antt =====
-- A message in two pieces for tcp_server.py, and the theorem at it.
use connected_vehicle_health.Prelude.{
  ℕ, ◌+◌, ◌-◌, ◌≤◌, ◌≡◌, refl, Option, none, some, List, [], ◌∷◌, length, take, length-take, Bool,
  true, false, ap, arith,
}
use connected_vehicle_health.Prelude.Int.{pos}
use connected_vehicle_health.Method.{ok, raised}
use connected_vehicle_health.Json.{obj, field, str, end}
use connected_vehicle_health.Mqtt.Queue.{empty}
use connected_vehicle_health.Tcp.Server.{TcpServer, Gateway, init, is_present}
use connected_vehicle_health.Prelude.Assoc.{lookup, modify}
use connected_vehicle_health.Tcp.Server.Intake.{
  IsSound, Packet, taken_of, receive_all, receive_all-counts,
}
use connected_vehicle_health.Tcp.{Message, read_message, has_newline, take_chunk, framed}
use connected_vehicle_health.Tcp.Frame.{IsFrame, read_message-IsFrame, rest_lost}

-- A connection as the pieces that arrive; an empty piece is a pause, and the end is that of the stream.
abbrev read : ℕ → ℕ → List (List ℕ) → Option (List ℕ) × List (List ℕ)
read n t [] = (some [], [])
read n t ([] ∷ pieces) = (none, pieces)
read n t ((b ∷ bs) ∷ pieces) = (some (take n (b ∷ bs)), pieces)

-- The bytes of "{", then those of "}", a newline and "{": what follows the newline is gone.
abbrev pieces : List (List ℕ)
pieces = (123 ∷ []) ∷ (125 ∷ 10 ∷ 123 ∷ []) ∷ []

two_pieces :
    read_message read pieces ≡ some (record { bytes = 123 ∷ 125 ∷ []; at_limit = false }, [])
unfolding read_message
two_pieces = refl

-- The length of what was read.
abbrev size : Option (List ℕ) → ℕ
size none = 0
size (some bs) = length bs

read-within : (n t : ℕ) (s : List (List ℕ)) (bs : List ℕ) → (read n t s).0 ≡ some bs → length bs ≤ n
read-within n t [] bs h = omega (arith, ap size h)
read-within n t ([] ∷ more) bs h = cc
read-within n t ((b ∷ r) ∷ more) bs h = omega (arith, ap size h, length-take n (b ∷ r))

read_message-IsFrame_example :
    (m : Message) × (s' : List (List ℕ)) × (read_message read pieces ≡ some (m, s')) × IsFrame m
read_message-IsFrame_example = read_message-IsFrame read read-within pieces

abbrev fresh_gateway : Gateway ℕ
fresh_gateway = record {
  tcp = init (λ n t. n) 0 (λ a b. pos (a - b)) 0;
  devices = record { capacity = 2; devices = [] };
  mqtt = some empty;
  logged = [];
}

fresh_gateway-IsSound : IsSound fresh_gateway
fresh_gateway-IsSound = record {
  registry = record { positive = omega arith; bounded = omega arith; distinct = tt };
  queued = omega arith;
}

-- One message that is no JSON, one from a client with an id, one that is not UTF-8, and one whose
-- client is gone.
abbrev packets : List (Packet ℕ)
packets =
    record {
      ticks = 1;
      now = "2026-01-01";
      ip = "10.0.0.7";
      decoded = ok "{";
      parsed = none;
      sent = ok tt;
    }
    ∷ record {
      ticks = 2000;
      now = "2026-01-01";
      ip = "10.0.0.7";
      decoded = ok "{}";
      parsed = some (obj (field "device_id" (str "car") end));
      sent = ok tt;
    }
    ∷ record {
      ticks = 2001;
      now = "2026-01-01";
      ip = "10.0.0.8";
      decoded = raised "UnicodeError";
      parsed = none;
      sent = ok tt;
    }
    ∷ record {
      ticks = 2002;
      now = "2026-01-01";
      ip = "10.0.0.9";
      decoded = ok "{";
      parsed = none;
      sent = raised "ECONNRESET";
    }
    ∷ []

abbrev run : List Bool × Gateway ℕ
run = receive_all (λ n t. n) 0 (λ a b. pos (a - b)) (λ v. "7") "no get" packets fresh_gateway

abbrev after : Gateway ℕ
after = run.1

-- The first two are logged as new devices, and the other two as errors.
two_packets :
    (after.logged
      ≡ "Invalid JSON received from 10.0.0.7" ∷ "Device discovered: 10.0.0.7 (10.0.0.7)"
        ∷ "Device discovered: car (10.0.0.7)" ∷ "TCP client 10.0.0.8: UnicodeError"
        ∷ "Invalid JSON received from 10.0.0.9" ∷ "TCP client 10.0.0.9: ECONNRESET" ∷ [])
    × (length after.devices.devices ≡ 2)
    × (after.tcp.packets_per_second ≡ 2)
unfolding receive_all is_present lookup modify init
two_packets = (refl, refl, refl)

receive_all-counts_example :
    IsSound after
    × (TcpServer.packet_count (Gateway.tcp after)
        ≡ fresh_gateway.tcp.packet_count + taken_of packets)
    × (run.0 ≡ true ∷ true ∷ false ∷ false ∷ [])
receive_all-counts_example =
    receive_all-counts (λ n t. n) 0 (λ a b. pos (a - b)) (λ v. "7") "no get" packets fresh_gateway
      fresh_gateway-IsSound

line-has_newline : has_newline (123 ∷ []) ≡ false
unfolding has_newline
line-has_newline = refl

-- The second of two messages in one chunk.
rest_lost_example : take_chunk read [] (some (123 ∷ 10 ∷ 125 ∷ 10 ∷ []), []) ≡ framed (123 ∷ []) []
rest_lost_example =
    rest_lost read [] (123 ∷ []) (125 ∷ 10 ∷ []) [] (unfold has_newline in refl) line-has_newline
