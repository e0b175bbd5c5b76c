-- ===== src/Modem/Attach/Same.antt =====
-- The comparison of the state with the one that was logged last, in modem_manager.py.
use connected_vehicle_health.Prelude.{
  ◌≡◌, refl, ap, sym, String, Bool, true, false, ◌&&◌, Option, none, some, eq_iff, arith,
}
use connected_vehicle_health.Modem.{Logged}
use connected_vehicle_health.Modem.Attach.{same_text, same_bool, same_state}

same_text-eq : (a b : Option String) → same_text a b ≡ true → a ≡ b
unfolding same_text
same_text-eq none none h = refl
same_text-eq (some a) (some b) h = ap some ((eq_iff a b).0 h)
same_text-eq none (some b) h = absurd (ground (arith, h))
same_text-eq (some a) none h = absurd (ground (arith, h))

same_bool-eq : (a b : Bool) → same_bool a b ≡ true → a ≡ b
unfolding same_bool
same_bool-eq true true h = refl
same_bool-eq true false h = sym h
same_bool-eq false false h = refl
same_bool-eq false true h = h

both : (a b : Bool) → (a && b) ≡ true → (a ≡ true) × (b ≡ true)
both true b h = (refl, h)
both false b h = absurd (ground (arith, h))

pub same_state-eq : (a : Logged) (o : Option Logged) → same_state a o ≡ true → o ≡ some a
unfolding same_state
same_state-eq a none h = absurd (ground (arith, h))
same_state-eq a (some b) h =
    let (h3, active) = both _ _ h in
    let (h2, ip) = both _ _ h3 in
    let (sim, net) = both _ _ h2 in
    λ i. some (record {
      sim_status = sym ((eq_iff a.sim_status b.sim_status).0 sim) i;
      registration = sym ((eq_iff a.registration b.registration).0 net) i;
      mobile_ip = sym (same_text-eq a.mobile_ip b.mobile_ip ip) i;
      data_active = sym (same_bool-eq a.data_active b.data_active active) i;
    })
