-- ===== src/Web/Admission.antt =====
-- The requests that web_server.py takes at the same time, however they are interleaved.
use connected_vehicle_health.Prelude.{
  ℕ, ◌+◌, ◌≤◌, ◌<◌, ◌≡◌, refl, Bool, true, false, ◌||◌, if◌then◌else◌, arith, leb, Bool-cases, inl,
  inr,
}
use connected_vehicle_health.Config.{http_max_active_requests, http_gc_interval_requests}
use connected_vehicle_health.Web.{WebServer, init, admit, finish, started, stopped, restarted}

-- What a request that ends makes of the number that have ended since the last collection.
abbrev pub after_end : Bool → ℕ → ℕ
after_end collects e = if collects then 0 else e + 1

-- One step of the server, with the requests that are open, those that were turned away, and those
-- that have ended since the last collection, before it and after it.
pub data Step : ℕ → ℕ → ℕ → WebServer → ℕ → ℕ → ℕ → WebServer → Type 0 where
  takes : (n r e : ℕ) (w : WebServer) → (admit w).0 ≡ true → Step n r e w (n + 1) r e (admit w).1
  rejects : (n r e : ℕ) (w : WebServer) → (admit w).0 ≡ false → Step n r e w n (r + 1) e (admit w).1
  finishes :
      (n r e : ℕ) (w : WebServer) (low : Bool)
      → Step (n + 1) r e w n r (after_end (finish low w).1 e) (finish low w).0
  starts : (n r e : ℕ) (w : WebServer) → Step n r e w n r e (started w)
  stops : (n r e : ℕ) (w : WebServer) → Step n r e w n r e (stopped w)
  restarts : (n r e : ℕ) (w : WebServer) → Step n r e w n r e (restarted w)

-- The states with `n` open requests, after `r` were turned away, and with `e` that have ended since
-- the last collection.
pub data Reach : ℕ → ℕ → ℕ → WebServer → Type 0 where
  here : Reach 0 0 0 init
  next :
      {n r e n' r' e' : ℕ} {w w' : WebServer}
      → Reach n r e w
      → Step n r e w n' r' e' w'
      → Reach n' r' e' w'

pub record Inv (n r e : ℕ) (w : WebServer) : Type 0 where
  pub active : w.active_requests ≡ n
  pub bounded : n ≤ http_max_active_requests
  pub rejected : w.rejected_requests ≡ r
  pub counted : w.requests_since_gc ≡ e
  pub collected : e < http_gc_interval_requests

takes-Inv :
    (n r e : ℕ) (w : WebServer) → (admit w).0 ≡ true → Inv n r e w → Inv (n + 1) r e (admit w).1
unfolding admit
takes-Inv n r e w taken v = elim (Bool-cases (leb http_max_active_requests w.active_requests)) [
  | inl full ↦ absurd (ground (arith, taken, full))
  | inr free ↦ rw free (record {
    active = omega (arith, v.active);
    bounded = ground (arith, v.active, free);
    rejected = omega (arith, v.rejected);
    counted = v.counted;
    collected = v.collected;
  })
]

rejects-Inv :
    (n r e : ℕ) (w : WebServer) → (admit w).0 ≡ false → Inv n r e w → Inv n (r + 1) e (admit w).1
unfolding admit
rejects-Inv n r e w refused v = elim (Bool-cases (leb http_max_active_requests w.active_requests)) [
  | inl full ↦ rw full (record {
    active = v.active;
    bounded = v.bounded;
    rejected = omega (arith, v.rejected);
    counted = v.counted;
    collected = v.collected;
  })
  | inr free ↦ absurd (ground (arith, refused, free))
]

finishes-Inv :
    (n r e : ℕ) (w : WebServer) (low : Bool)
    → Inv (n + 1) r e w
    → Inv n r (after_end (finish low w).1 e) (finish low w).0
unfolding finish
finishes-Inv n r e w low v =
    elim (Bool-cases (leb http_gc_interval_requests (w.requests_since_gc + 1) || low)) [
      | inl collects ↦ rw collects (record {
        active = omega (arith, v.active);
        bounded = omega (arith, v.bounded);
        rejected = v.rejected;
        counted = refl;
        collected = omega arith;
      })
      | inr waits ↦ rw waits (record {
        active = omega (arith, v.active);
        bounded = omega (arith, v.bounded);
        rejected = v.rejected;
        counted = omega (arith, v.counted);
        collected = ground (arith, v.counted, waits);
      })
    ]

running-Inv :
    (n r e k : ℕ) (b : Bool) (w : WebServer)
    → Inv n r e w
    → Inv n r e (record w { running = b; restart_count = k })
running-Inv n r e k b w v = record {
  active = v.active;
  bounded = v.bounded;
  rejected = v.rejected;
  counted = v.counted;
  collected = v.collected;
}

Step-Inv :
    (w w' : WebServer) (n r e n' r' e' : ℕ)
    → Step n r e w n' r' e' w'
    → Inv n r e w
    → Inv n' r' e' w'
unfolding started stopped restarted
Step-Inv w _ n r e _ _ _ (takes _ _ _ _ taken) v = takes-Inv n r e w taken v
Step-Inv w _ n r e _ _ _ (rejects _ _ _ _ refused) v = rejects-Inv n r e w refused v
Step-Inv w _ _ r e n _ _ (finishes _ _ _ _ low) v = finishes-Inv n r e w low v
Step-Inv w _ n r e _ _ _ (starts _ _ _ _) v = running-Inv n r e w.restart_count true w v
Step-Inv w _ n r e _ _ _ (stops _ _ _ _) v = running-Inv n r e w.restart_count false w v
Step-Inv w _ n r e _ _ _ (restarts _ _ _ _) v = running-Inv n r e (w.restart_count + 1) true w v

pub Reach-Inv : (n r e : ℕ) (w : WebServer) → Reach n r e w → Inv n r e w
unfolding init
Reach-Inv _ _ _ _ here = record {
  active = refl;
  bounded = omega arith;
  rejected = refl;
  counted = refl;
  collected = omega arith;
}
Reach-Inv _ _ _ _ (next {n} {r} {e} {n'} {r'} {e'} {w} {w'} before step) =
    Step-Inv w w' n r e n' r' e' step (Reach-Inv n r e w before)
