-- ===== src/Method.antt =====
-- A method of an object of the gateway: it changes the object's fields, uses what they refer to and
-- the log, and returns or raises. What was written before a raise stays written.
pub mod Rules
use connected_vehicle_health.Prelude.{
  ◌≡◌, refl, String, Bool, true, false, List, [], ◌∷◌, if◌then◌else◌, Option, none, some,
}

-- What a call returns, or the text of the exception that it raises.
pub data Result {ℓ} (A : Type ℓ) : Type ℓ where
  ok : A → Result A
  raised : String → Result A

-- A call of the logger.
pub data Note : Type 0 where
  info warning error : String → Note

-- The object's fields, the state of what it calls, and the calls of the logger, newest first.
pub record Session (F S : Type 0) : Type 0 where
  pub self : F
  pub line : S
  pub notes : List Note

abbrev pub Method : Type 0 → Type 0 → Type 0 → Type 0
Method F S A = Session F S → Result A × Session F S

infixl 5 ◌>>=◌ ◌>>◌
unfoldable pub ◌>>=◌ : {F S A B : Type 0} → Method F S A → (A → Method F S B) → Method F S B
◌>>=◌ m f σ = let (r, σ') = m σ in elim r [ ok a ↦ f a σ' | raised exc ↦ (raised exc, σ') ]

abbrev pub ◌>>◌ : {F S A B : Type 0} → Method F S A → Method F S B → Method F S B
m >> k = m >>= λ _. k

module _ {F S : Type 0} where
  unfoldable pub pure : {A : Type 0} → A → Method F S A
  pure a σ = (ok a, σ)

  unfoldable pub raise : {A : Type 0} → String → Method F S A
  raise exc σ = (raised exc, σ)

  unfoldable pub gets : {A : Type 0} → (F → A) → Method F S A
  gets f σ = (ok (f σ.self), σ)

  unfoldable pub look : {A : Type 0} → (S → A) → Method F S A
  look f σ = (ok (f σ.line), σ)

  unfoldable pub modify : (F → F) → Method F S (Unit {0})
  modify f σ = (ok tt, record σ { self = f σ.self })

  unfoldable pub log : Note → Method F S (Unit {0})
  log note σ = (ok tt, record σ { notes = note ∷ σ.notes })

  -- `if b: m`, and `if b: m else: n`
  unfoldable pub when : Bool → Method F S (Unit {0}) → Method F S (Unit {0})
  unfolding pure
  when b m σ = if b then m σ else pure tt σ

  unfoldable pub branch : {A : Type 0} → Bool → Method F S A → Method F S A → Method F S A
  branch b m n σ = if b then m σ else n σ

  -- A call that leaves the fields alone.
  unfoldable pub on_line : {A : Type 0} → (S → Result A × S) → Method F S A
  on_line f σ = ((f σ.line).0, record σ { line = (f σ.line).1 })

  -- `try: m except Exception as exc: h`
  unfoldable pub handle : {A : Type 0} → Method F S A → (String → Method F S A) → Method F S A
  handle m h σ = let (r, σ') = m σ in elim r [ ok a ↦ (ok a, σ') | raised exc ↦ h exc σ' ]

  -- `try: m finally: …`, for an assignment
  unfoldable pub finally : {A : Type 0} → Method F S A → (F → F) → Method F S A
  finally m g σ = let (r, σ') = m σ in (r, record σ' { self = g σ'.self })

  -- The way a method ends: what holds of the result and the fields, or of the fields after a raise.
  unfoldable pub Ended :
      {A : Type 0} → (A → F → Type 0) → (F → Type 0) → Result A × Session F S → Type 0
  Ended Q E (ok a, σ) = Q a σ.self
  Ended Q E (raised exc, σ) = E σ.self
