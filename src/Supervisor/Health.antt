-- ===== src/Supervisor/Health.antt =====
-- The supervisor of gateway.py restarts a web server that does not answer.
use connected_vehicle_health.Prelude.{
  ℕ, suc, ◌+◌, ◌*◌, ◌≤◌, min, ◌≡◌, refl, true, false, List, [], ◌∷◌, ◌++◌, length, leb, All,
  Bool-cases, inl, inr, arith, ◌⊎◌,
}
use connected_vehicle_health.Supervisor.{
  Watch, Findings, Action, restart_tcp, restart_web, with_wifi, probe_http, pass, passes,
}

-- There is a network, and the web server does not answer.
pub record IsDown (f : Findings) : Type 0 where
  pub networked : f.ready ≡ true
  pub silent : f.probe ≡ false

-- The web server is restarted.
abbrev pub RestartsWeb : List Action → Type 0
RestartsWeb [] = ⊥
RestartsWeb (restart_tcp ∷ xs) = RestartsWeb xs
RestartsWeb (restart_web ∷ xs) = Unit

RestartsWeb-append : (xs ys : List Action) → RestartsWeb ys → RestartsWeb (xs ++ ys)
RestartsWeb-append [] ys r = r
RestartsWeb-append (restart_tcp ∷ xs) ys r = RestartsWeb-append xs ys r
RestartsWeb-append (restart_web ∷ xs) ys r = tt

-- Enough passes are left for the next probe, and for the probes up to the limit.
abbrev Enough : ℕ → Watch → Type 0
Enough n w =
    (60 ≤ min w.elapsed 50 + 10 * n) × (180 ≤ 60 * w.http_failures + min w.elapsed 50 + 10 * n)

pass-down :
    (n : ℕ) (f : Findings) (w : Watch)
    → IsDown f
    → Enough (suc n) w
    → ((pass f w).1 ≡ restart_web ∷ []) ⊎ (((pass f w).1 ≡ []) × Enough n (pass f w).0)
unfolding pass with_wifi probe_http
pass-down n f w d (due, limit) = elim (Bool-cases (leb 60 (w.elapsed + 10))) [
  | inl h ↦ elim (Bool-cases (leb 3 (w.http_failures + 1))) [
    | inl k ↦ rw (d.networked, h, d.silent, k) (inl refl)
    | inr k ↦ rw (d.networked, h, d.silent, k) (inr (refl, (ground arith, ground arith)))
  ]
  | inr h ↦ rw (d.networked, h) (inr (refl, (ground arith, ground arith)))
]

passes-down :
    (fs : List Findings) (w : Watch)
    → All IsDown fs
    → Enough (length fs) w
    → RestartsWeb (passes fs w)
unfolding passes
passes-down [] w d (due, limit) = absurd (omega (arith, due))
passes-down (f ∷ fs) w (d, ds) enough = elim (pass-down (length fs) f w d enough) [
  | inl now ↦ rw now tt
  | inr (later, left) ↦ RestartsWeb-append (pass f w).1 _ (passes-down fs (pass f w).0 ds left)
]

-- Whatever the supervisor has seen before: in 18 passes (three minutes) with a network and without
-- an answer from the web server, it restarts that server.
pub passes-restart :
    (fs : List Findings) (w : Watch) → All IsDown fs → 18 ≤ length fs → RestartsWeb (passes fs w)
passes-restart fs w d long = passes-down fs w d (omega (arith, long), omega (arith, long))
