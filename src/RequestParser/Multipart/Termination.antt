-- ===== src/RequestParser/Multipart/Termination.antt =====
-- `onion_request_write` ends where the data has no 0 byte, in the headers and in a multipart form.
use mathlib.Core.Option
use onion.Prelude.{ℕ, ◌<◌, [], Option, none, some, ◌≡◌, Bytes}
use onion.RequestParser.Machine.{Server}
use onion.RequestParser.Write.Consumes.{NoNull}
use onion.RequestParser.Multipart.State.{Multipart, Progress, start, calls, needs_more}
use onion.RequestParser.Multipart.Attributes.{Stale}
use onion.RequestParser.Multipart.Advances.{FormFits, form_measure}
use onion.RequestParser.Multipart.{run_form, WriteEnd, of_headers, of_form}
use onion.RequestParser.Write.Termination.{IsDone}

-- The loop ended while a form was read.
abbrev pub FormReturns : Option Progress → Type 0
FormReturns none = ⊥
FormReturns (some (calls m rest)) = ⊥
FormReturns (some (needs_more m rest)) = FormFits m × (rest ≡ [])
FormReturns (some _) = Unit

abbrev FormEndsBelow : ℕ → Server → Stale → Type 0
FormEndsBelow n server stale =
    (m : Multipart) (rest : Bytes)
    → FormFits m
    → NoNull rest
    → form_measure m rest < n
    → FormReturns (run_form n server stale m rest)

-- The loop ended, and what the connection brings next may come.
abbrev pub Returns : Option WriteEnd → Type 0
Returns none = ⊥
Returns (some (of_headers o)) = IsDone o
Returns (some (of_form p)) = FormReturns (some p)

-- A form begins with its first boundary.
abbrev IsBegun : Option Multipart → Type 0
IsBegun none = Unit
IsBegun (some m) = m.stage ≡ start
