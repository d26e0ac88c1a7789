-- ===== src/Examples/Opened.antt =====
-- A source of draws that runs through all values, and a session that is drawn from it
-- (backend/internal/domain/math.go).
use mathlib.Core.List.Permᴰ as Permᴰ
use native.Mathlib.Nat.{mod-lt}
use family_quest.Base.{◌+◌, ◌-◌, ◌%◌, ◌≡◌, refl, true, pos, all, codes, String, ok, arith}
use family_quest.Math.Settings.{MathSettings, valid_settings}
use family_quest.Math.Validate.{validate_session, hex_digit}
use family_quest.Math.Draws.{Random, new_math_session}
use family_quest.Math.Drawn.{IsBelow}
use family_quest.Math.Choice.{IsFair, Shuffles}
use family_quest.Math.Opened.{new_math_session-validate}
use family_quest.Examples.Data.{noon, settings}

abbrev pub counter : Random
counter = record { int_n = λ n bound. n % bound; shuffle = λ n os. os }

counter-IsBelow : IsBelow counter
counter-IsBelow n bound h = mod-lt n h

counter-IsFair : IsFair counter 17
counter-IsFair n v h = ((v + 17 - n % 17) % 17, omega arith, omega arith)

counter-Shuffles : Shuffles counter
counter-Shuffles n os = Permᴰ.refl os

abbrev choice : MathSettings
choice = record settings { answer_mode = "choice" }

choice-valid : valid_settings choice ≡ true
unfolding valid_settings
choice-valid = refl

abbrev session_id : String
session_id = "0123456789abcdef0123456789abcdef"

session_id-hex : all hex_digit (codes session_id) ≡ true
session_id-hex = refl

new_math_session-validate_example :
    validate_session (new_math_session counter 17 session_id (pos 2) choice noon) ≡ ok tt
new_math_session-validate_example =
    new_math_session-validate counter 17 session_id (pos 2) choice noon counter-IsBelow
      counter-IsFair counter-Shuffles choice-valid refl session_id-hex refl refl
