-- ===== src/Web/Handle/Replies.antt =====
-- How the handling of a request by web_server.py ends, whatever the reader and the writer raise.
use connected_vehicle_health.Prelude.{
  ℕ, ◌≤◌, ◌≡◌, ◌⊎◌, inl, inr, String, true, false, Option, none, some, List, [], ◌∷◌, ◌++◌, length,
}
use connected_vehicle_health.Web.Route.{Reply, file, file_missing, internal_error}
use connected_vehicle_health.Web.Handle.{Failure, os_error, other_error, Handled}

-- The browser has closed the connection.
abbrev pub IsClosed : Failure → Type 0
IsClosed failure = (failure ≡ os_error (some 104)) ⊎ (failure ≡ os_error (some 128))

-- No reply or one, or a file that broke off and the reply that it is missing.
abbrev pub IsTried : List Reply → Type 0
IsTried replies =
    (length replies ≤ 1) ⊎ ((path : String) × (replies ≡ file path ∷ file_missing ∷ []))

module _ (written : Reply → Option Failure) (request : Failure ⊎ List ℕ) where
  -- What may be raised: by the reader, by the writing of a reply, or anything but an OSError.
  abbrev pub IsRaised : Failure → Type 0
  IsRaised failure =
      (request ≡ inl failure)
      ⊎ (((reply : Reply) × (written reply ≡ some failure)) ⊎ (failure ≡ other_error))

  -- Why nothing is logged: the connection ended without a request, the last reply was written, or
  -- the browser had closed the connection.
  abbrev pub IsQuiet : List Reply → Type 0
  IsQuiet replies =
      ((request ≡ inr []) × (replies ≡ []))
      ⊎ (((front : List Reply) × (last : Reply) × (replies ≡ front ++ last ∷ [])
            × (written last ≡ none))
          ⊎ ((failure : Failure) × IsRaised failure × IsClosed failure))

  -- Nothing is logged, or an error is, and the reply that says so comes last.
  abbrev pub IsAnswered : Handled → Type 0
  IsAnswered h =
      ((h.logged ≡ false) × IsTried h.replies × IsQuiet h.replies)
      ⊎ ((h.logged ≡ true)
          × ((sent : List Reply) × (h.replies ≡ sent ++ internal_error ∷ []) × IsTried sent)
          × ((failure : Failure) × IsRaised failure × (IsClosed failure → ⊥)))
