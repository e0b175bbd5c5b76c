-- ===== src/Tcp/Frame.antt =====
-- What `_read_message` of tcp_server.py returns.
use connected_vehicle_health.Prelude.{
  ap, sym, ◌∙◌, append-nil, append_assoc, true, ◌==◌, ℕ, zero, suc, ◌+◌, ◌-◌, ◌≤◌, ◌<◌, min, ◌≡◌,
  refl, false, Option, none, some, List, [], ◌∷◌, ◌++◌, length, ltb, arith, Bool-cases, inl, inr,
  length-append,
}
use connected_vehicle_health.Config.{tcp_read_size, tcp_max_message_size}
use connected_vehicle_health.Tcp.{
  has_newline, before_newline, timeout_of, Progress, framed, broken, more, Message, unframed,
  take_chunk, receive, after_pass, read_loop, read_message,
}

before_newline-clean : (bs : List ℕ) → has_newline (before_newline bs) ≡ false
unfolding has_newline before_newline
before_newline-clean [] = refl
before_newline-clean (b ∷ bs) = ground (arith, before_newline-clean bs)

before_newline-le : (bs : List ℕ) → length (before_newline bs) ≤ length bs
unfolding before_newline
before_newline-le [] = omega arith
before_newline-le (b ∷ bs) = ground (arith, before_newline-le bs)

has_newline-append :
    (xs ys : List ℕ)
    → has_newline xs ≡ false
    → has_newline ys ≡ false
    → has_newline (xs ++ ys) ≡ false
unfolding has_newline
has_newline-append [] ys h k = k
has_newline-append (x ∷ xs) ys h k = ground (arith, has_newline-append xs ys (ground arith) k)

-- A message within the limit, on one line.
pub record IsFrame (m : Message) : Type 0 where
  pub bounded : length m.bytes ≤ tcp_max_message_size
  pub one_line : has_newline m.bytes ≡ false

module _ {S : Type 0} (read : ℕ → ℕ → S → Option (List ℕ) × S) where
  -- What one pass keeps: no newline so far, and each further pass has a byte more.
  abbrev Fits : List ℕ → Progress S → Type 0
  Fits got (framed frame s) = (length frame ≤ tcp_max_message_size) × (has_newline frame ≡ false)
  Fits got (broken rest s) = rest ≡ got
  Fits got (more longer s) =
      (length got < length longer)
      × (length longer ≤ tcp_max_message_size)
      × (has_newline longer ≡ false)

  take_chunk-Fits :
      (got : List ℕ) (chunk : Option (List ℕ)) (s : S)
      → has_newline got ≡ false
      → ((bs : List ℕ) → chunk ≡ some bs → length got + length bs ≤ tcp_max_message_size)
      → Fits got (take_chunk read got (chunk, s))
  unfolding take_chunk
  take_chunk-Fits got none s clean fits = refl
  take_chunk-Fits got (some []) s clean fits = refl
  take_chunk-Fits got (some (b ∷ bs)) s clean fits = elim (Bool-cases (has_newline (b ∷ bs))) [
    | inl h ↦ rw h (
      omega (
        arith,
        before_newline-le (got ++ b ∷ bs),
        length-append got (b ∷ bs),
        fits (b ∷ bs) refl,
      ),
      before_newline-clean (got ++ b ∷ bs),
    )
    | inr h ↦ rw h (
      omega (arith, length-append got (b ∷ bs)),
      omega (arith, length-append got (b ∷ bs), fits (b ∷ bs) refl),
      has_newline-append got (b ∷ bs) clean h,
    )
  ]

  -- The loop has come to an end with a frame.
  abbrev Ends : Option (Message × S) → Type 0
  Ends o = (m : Message) × (s : S) × (o ≡ some (m, s)) × IsFrame m

  after_pass-Ends :
      (next : List ℕ → S → Option (Message × S)) (got : List ℕ) (p : Progress S)
      → length got ≤ tcp_max_message_size
      → has_newline got ≡ false
      → ((longer : List ℕ) (s : S)
          → length got < length longer
          → length longer ≤ tcp_max_message_size
          → has_newline longer ≡ false
          → Ends (next longer s))
      → Fits got p
      → Ends (after_pass next p)
  unfolding after_pass unframed
  after_pass-Ends next got (framed frame s) low clean go (b, l) =
      (record { bytes = frame; at_limit = false }, s, refl, record { bounded = b; one_line = l })
  after_pass-Ends next got (broken rest s) low clean go same =
      (unframed rest, s, refl, record { bounded = rw same low; one_line = rw same clean })
  after_pass-Ends next got (more longer s) low clean go (grows, fits, line) =
      go longer s grows fits line

  module _
      (within : (n t : ℕ) (s : S) (bs : List ℕ) → (read n t s).0 ≡ some bs → length bs ≤ n) where
    receive-Fits :
        (got : List ℕ) (s : S)
        → length got < tcp_max_message_size
        → has_newline got ≡ false
        → Fits got (receive read got s)
    unfolding receive
    receive-Fits got s room clean =
        let n = min tcp_read_size (tcp_max_message_size - length got) in
        take_chunk-Fits got (read n (timeout_of got) s).0 (read n (timeout_of got) s).1 clean
          (λ bs e. omega (arith, within n (timeout_of got) s bs e))

    read_loop-Ends :
        (fuel : ℕ) (got : List ℕ) (s : S)
        → length got ≤ tcp_max_message_size
        → tcp_max_message_size < fuel + length got
        → has_newline got ≡ false
        → Ends (read_loop read fuel got s)
    unfolding read_loop unframed
    read_loop-Ends zero got s low enough clean = absurd (omega (arith, low, enough))
    read_loop-Ends (suc fuel) got s low enough clean =
        elim (Bool-cases (ltb (length got) tcp_max_message_size)) [
          | inl h ↦ rw h (
              after_pass-Ends (read_loop read fuel) got (receive read got s) low clean
                (λ longer s' grows fits line.
                  read_loop-Ends fuel longer s' fits (omega (arith, enough, grows)) line)
                (receive-Fits got s (ground arith) clean))
          | inr h ↦ rw h (unframed got, s, refl, record { bounded = low; one_line = clean })
        ]

    -- For every reader that returns at most as many bytes as it is asked for: `_read_message` comes
    -- to an end, and the message has at most TCP_MAX_MESSAGE_SIZE bytes and no newline.
    pub read_message-IsFrame :
        (s : S) → (m : Message) × (s' : S) × (read_message read s ≡ some (m, s')) × IsFrame m
    unfolding read_message has_newline
    read_message-IsFrame s =
        read_loop-Ends (suc tcp_max_message_size) [] s (omega arith) (omega arith) refl

before_newline-rest :
    (xs ys : List ℕ) → has_newline xs ≡ false → before_newline (xs ++ 10 ∷ ys) ≡ xs
unfolding before_newline has_newline
before_newline-rest [] ys h = refl
before_newline-rest (x ∷ xs) ys h = elim (Bool-cases (x == 10)) [
  | inl e ↦ absurd (ground (arith, h, e))
  | inr e ↦ rw e (ap (◌∷◌ x) (before_newline-rest xs ys (ground arith)))
]

has_newline-rest : (xs ys : List ℕ) → has_newline (xs ++ 10 ∷ ys) ≡ true
unfolding has_newline
has_newline-rest [] ys = refl
has_newline-rest (x ∷ xs) ys = ground (arith, has_newline-rest xs ys)

-- What follows a newline in a chunk is lost: it is neither in the message nor left to be read, so
-- the pass ends as if it had not been sent.
pub rest_lost :
    {S : Type 0} (read : ℕ → ℕ → S → Option (List ℕ) × S) (got xs ys : List ℕ) (s : S)
    → has_newline got ≡ false
    → has_newline xs ≡ false
    → take_chunk read got (some (xs ++ 10 ∷ ys), s) ≡ framed (got ++ xs) s
unfolding take_chunk
rest_lost read got [] ys s h k =
    ap (λ m. framed m s) (before_newline-rest got ys h ∙ sym (append-nil got))
rest_lost read got (x ∷ xs) ys s h k = rw (has_newline-rest (x ∷ xs) ys) (
    ap (λ m. framed m s)
      (ap before_newline (sym (append_assoc got (x ∷ xs) (10 ∷ ys)))
        ∙ before_newline-rest (got ++ x ∷ xs) ys (has_newline-append got (x ∷ xs) h k)))
