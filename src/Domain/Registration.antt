-- ===== src/Domain/Registration.antt =====
-- The registration of a family (backend/internal/domain/registration.go). A text is a sequence of
-- characters, so that the test of its encoding always passes.
use Prim.Native.String.{count}
use family_quest.Base.{
  ℕ, Bool, ◌&&◌, ◌||◌, String, any, codes, trim_space, ltb, leb, Result, ok, err, invalid_input,
  fail_if, ◌>>◌,
}
use family_quest.Domain.Principals.{validate_pin}

pub record FamilyRegistration : Type 0 where
  pub name : String
  pub parent_name : String
  pub pin : String

-- `unicode.IsControl`: the two blocks of control characters.
abbrev pub is_control : ℕ → Bool
is_control r = leb r 31 || (leb 127 r && leb r 159)

unfoldable pub validate_family_name : String → Result (Unit {0})
validate_family_name name = do
  fail_if (ltb (count name) 1 || ltb 80 (count name)) invalid_input
  fail_if (any is_control (codes name)) invalid_input

abbrev pub pin_result : Result (Unit {0}) → Result (Unit {0})
pin_result (ok u) = ok u
pin_result (err e) = err invalid_input

-- `Normalize`: the trimmed registration, with what is wrong with it.
unfoldable pub normalize_registration : FamilyRegistration → FamilyRegistration × Result (Unit {0})
normalize_registration given =
    let v : FamilyRegistration = record given {
      name = trim_space given.name;
      parent_name = trim_space given.parent_name;
    } in
    (
      v,
      validate_family_name v.name
          >> validate_family_name v.parent_name
          >> pin_result (validate_pin v.pin),
    )
