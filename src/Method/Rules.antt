-- ===== src/Method/Rules.antt =====
-- Rules for the way a method ends, one for each of the calls that methods consist of.
use connected_vehicle_health.Prelude.{arith, ◌≡◌, refl, String, Bool, true, false, not, sym, ◌∷◌}
use connected_vehicle_health.Method.{
  Result, ok, raised, Note, Session, Method, ◌>>=◌, pure, raise, gets, look, modify, log, handle,
  finally, when, branch, on_line, Ended,
}

pub unset : {A : Type 0} → false ≡ true → A
unset h = absurd (ground (arith, h))

pub not-false : (b : Bool) → not b ≡ false → b ≡ true
not-false true h = refl
not-false false h = sym h

module _ {F S : Type 0} where
  step-Ended :
      {A B : Type 0} (Q : A → F → Type 0) (R : B → F → Type 0) (E : F → Type 0) (r : Result A)
      (σ : Session F S) (f : A → Method F S B)
      → Ended {S = S} Q E (r, σ)
      → ((a : A) (σ' : Session F S) → Q a σ'.self → Ended R E (f a σ'))
      → Ended {S = S} R E (elim r [ ok a ↦ f a σ | raised exc ↦ (raised exc, σ) ])
  unfolding Ended
  step-Ended Q R E (ok a) σ f first later = later a σ first
  step-Ended Q R E (raised exc) σ f first later = first

  pub bind-Ended :
      {A B : Type 0} (Q : A → F → Type 0) (R : B → F → Type 0) (E : F → Type 0) (m : Method F S A)
      (f : A → Method F S B) (σ : Session F S)
      → Ended Q E (m σ)
      → ((a : A) (σ' : Session F S) → Q a σ'.self → Ended R E (f a σ'))
      → Ended R E ((m >>= f) σ)
  unfolding ◌>>=◌
  bind-Ended Q R E m f σ first later = step-Ended Q R E (m σ).0 (m σ).1 f first later

  call-step :
      {A B : Type 0} (R : B → F → Type 0) (E : F → Type 0) (r : Result A) (σ : Session F S)
      (f : A → Method F S B)
      → E σ.self
      → ((a : A) → Ended R E (f a σ))
      → Ended {S = S} R E (elim r [ ok a ↦ f a σ | raised exc ↦ (raised exc, σ) ])
  unfolding Ended
  call-step R E (ok a) σ f e later = later a
  call-step R E (raised exc) σ f e later = e

  -- A call on the line, which may raise, and what follows.
  pub call-Ended :
      {A B : Type 0} (R : B → F → Type 0) (E : F → Type 0) (call : S → Result A × S)
      (f : A → Method F S B) (σ : Session F S)
      → E σ.self
      → ((a : A) (s : S) → Ended R E (f a (record σ { line = s })))
      → Ended R E ((on_line call >>= f) σ)
  unfolding ◌>>=◌ on_line
  call-Ended R E call f σ e later =
      call-step R E (call σ.line).0 (record σ { line = (call σ.line).1 }) f e
        (λ a. later a (call σ.line).1)

  pub modify-Ended :
      {B : Type 0} (R : B → F → Type 0) (E : F → Type 0) (g : F → F) (f : Unit {0} → Method F S B)
      (σ : Session F S)
      → Ended R E (f tt (record σ { self = g σ.self }))
      → Ended R E ((modify g >>= f) σ)
  unfolding ◌>>=◌ modify
  modify-Ended R E g f σ h = h

  -- A change that keeps a property, and what follows.
  pub modify-keeps :
      {B : Type 0} (P : F → Type 0) (R : B → F → Type 0) (E : F → Type 0) (g : F → F)
      (f : Unit {0} → Method F S B) (σ : Session F S)
      → ((o : F) → P o → P (g o))
      → P σ.self
      → ((σ' : Session F S) → P σ'.self → Ended R E (f tt σ'))
      → Ended R E ((modify g >>= f) σ)
  modify-keeps P R E g f σ keeps p later =
      modify-Ended R E g f σ (later (record σ { self = g σ.self }) (keeps σ.self p))

  pub gets-Ended :
      {A B : Type 0} (R : B → F → Type 0) (E : F → Type 0) (g : F → A) (f : A → Method F S B)
      (σ : Session F S)
      → Ended R E (f (g σ.self) σ)
      → Ended R E ((gets g >>= f) σ)
  unfolding ◌>>=◌ gets
  gets-Ended R E g f σ h = h

  pub look-Ended :
      {A B : Type 0} (R : B → F → Type 0) (E : F → Type 0) (g : S → A) (f : A → Method F S B)
      (σ : Session F S)
      → Ended R E (f (g σ.line) σ)
      → Ended R E ((look g >>= f) σ)
  unfolding ◌>>=◌ look
  look-Ended R E g f σ h = h

  pub log-Ended :
      {B : Type 0} (R : B → F → Type 0) (E : F → Type 0) (note : Note) (f : Unit {0} → Method F S B)
      (σ : Session F S)
      → Ended R E (f tt (record σ { notes = note ∷ σ.notes }))
      → Ended R E ((log note >>= f) σ)
  unfolding ◌>>=◌ log
  log-Ended R E note f σ h = h

  last-step :
      {A : Type 0} (R : A → F → Type 0) (E : F → Type 0) (r : Result A) (σ : Session F S)
      → E σ.self
      → ((a : A) → R a σ.self)
      → Ended {S = S} R E (r, σ)
  unfolding Ended
  last-step R E (ok a) σ e h = h a
  last-step R E (raised exc) σ e h = e

  -- The last call of a method.
  pub call-last :
      {A : Type 0} (R : A → F → Type 0) (E : F → Type 0) (call : S → Result A × S) (σ : Session F S)
      → E σ.self
      → ((a : A) → R a σ.self)
      → Ended R E (on_line call σ)
  unfolding on_line
  call-last R E call σ e h = last-step R E (call σ.line).0 (record σ { line = (call σ.line).1 }) e h

  -- The last call of a method, where it cannot raise.
  pub run-last :
      (R : Unit {0} → F → Type 0) (E : F → Type 0) (g : S → S) (σ : Session F S)
      → R tt σ.self
      → Ended R E (on_line (λ s. (ok tt, g s)) σ)
  unfolding Ended on_line
  run-last R E g σ h = h

  -- A call that cannot raise, and what follows.
  pub run-Ended :
      {B : Type 0} (R : B → F → Type 0) (E : F → Type 0) (g : S → S) (f : Unit {0} → Method F S B)
      (σ : Session F S)
      → Ended R E (f tt (record σ { line = g σ.line }))
      → Ended R E ((on_line (λ s. (ok tt, g s)) >>= f) σ)
  unfolding ◌>>=◌ on_line
  run-Ended R E g f σ h = h

  pub modify-last :
      (R : Unit {0} → F → Type 0) (E : F → Type 0) (g : F → F) (σ : Session F S)
      → R tt (g σ.self)
      → Ended R E (modify g σ)
  unfolding Ended modify
  modify-last R E g σ h = h

  pub pure-last :
      {A : Type 0} (R : A → F → Type 0) (E : F → Type 0) (a : A) (σ : Session F S)
      → R a σ.self
      → Ended R E (pure a σ)
  unfolding Ended pure
  pure-last R E a σ h = h

  pub when-Ended :
      (R : Unit {0} → F → Type 0) (E : F → Type 0) (b : Bool) (m : Method F S (Unit {0}))
      (σ : Session F S)
      → (b ≡ true → Ended R E (m σ))
      → (b ≡ false → R tt σ.self)
      → Ended R E (when b m σ)
  unfolding when
  when-Ended R E true m σ p q = p refl
  when-Ended R E false m σ p q = pure-last R E tt σ (q refl)

  pub branch-Ended :
      {A : Type 0} (R : A → F → Type 0) (E : F → Type 0) (b : Bool) (m n : Method F S A)
      (σ : Session F S)
      → (b ≡ true → Ended R E (m σ))
      → (b ≡ false → Ended R E (n σ))
      → Ended R E (branch b m n σ)
  unfolding branch
  branch-Ended R E true m n σ p q = p refl
  branch-Ended R E false m n σ p q = q refl

  except-Ended :
      {A : Type 0} (R : A → F → Type 0) (P E : F → Type 0) (r : Result A) (σ : Session F S)
      (h : String → Method F S A)
      → Ended R P (r, σ)
      → ((exc : String) (σ' : Session F S) → P σ'.self → Ended R E (h exc σ'))
      → Ended {S = S} R E (elim r [ ok a ↦ (ok a, σ) | raised exc ↦ h exc σ ])
  unfolding Ended
  except-Ended R P E (ok a) σ h first later = first
  except-Ended R P E (raised exc) σ h first later = later exc σ first

  -- The handler starts with what holds after a raise.
  pub handle-Ended :
      {A : Type 0} (P : F → Type 0) (R : A → F → Type 0) (E : F → Type 0) (m : Method F S A)
      (h : String → Method F S A) (σ : Session F S)
      → Ended R P (m σ)
      → ((exc : String) (σ' : Session F S) → P σ'.self → Ended R E (h exc σ'))
      → Ended R E (handle m h σ)
  unfolding handle
  handle-Ended P R E m h σ first later = except-Ended R P E (m σ).0 (m σ).1 h first later

  assign-Ended :
      {A : Type 0} (Q R : A → F → Type 0) (D E : F → Type 0) (g : F → F) (r : Result A)
      (σ : Session F S)
      → Ended Q D (r, σ)
      → ((a : A) (o : F) → Q a o → R a (g o))
      → ((o : F) → D o → E (g o))
      → Ended R E (r, record σ { self = g σ.self })
  unfolding Ended
  assign-Ended Q R D E g (ok a) σ first good bad = good a σ.self first
  assign-Ended Q R D E g (raised exc) σ first good bad = bad σ.self first

  pub finally-Ended :
      {A : Type 0} (Q : A → F → Type 0) (D : F → Type 0) (R : A → F → Type 0) (E : F → Type 0)
      (m : Method F S A) (g : F → F) (σ : Session F S)
      → Ended Q D (m σ)
      → ((a : A) (o : F) → Q a o → R a (g o))
      → ((o : F) → D o → E (g o))
      → Ended R E (finally m g σ)
  unfolding finally
  finally-Ended Q D R E m g σ first good bad = assign-Ended Q R D E g (m σ).0 (m σ).1 first good bad

  -- What holds at the end may be weakened.
  pub Ended-weaken :
      {A : Type 0} (Q : A → F → Type 0) (D : F → Type 0) (R : A → F → Type 0) (E : F → Type 0)
      (m : Method F S A) (σ : Session F S)
      → Ended Q D (m σ)
      → ((a : A) (o : F) → Q a o → R a o)
      → ((o : F) → D o → E o)
      → Ended R E (m σ)
  Ended-weaken Q D R E m σ first good bad =
      assign-Ended Q R D E (λ o. o) (m σ).0 (m σ).1 first good bad

  pub raise-last :
      {A : Type 0} (R : A → F → Type 0) (E : F → Type 0) (exc : String) (σ : Session F S)
      → E σ.self
      → Ended R E (raise exc σ)
  unfolding Ended raise
  raise-last R E exc σ e = e

  pub log-last :
      (R : Unit {0} → F → Type 0) (E : F → Type 0) (note : Note) (σ : Session F S)
      → R tt σ.self
      → Ended R E (log note σ)
  unfolding Ended log
  log-last R E note σ e = e
