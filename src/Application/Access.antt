-- ===== src/Application/Access.antt =====
-- Who may change what (backend/internal/application/access.go, and `CheckWriteAccess` of
-- backend/internal/store/profile.go).
use family_quest.Base.{
  Bool, true, false, not, ◌||◌, ℤ, pos, le_ℤ, lt_ℤ, eq_ℤ, str_eq, ltb, Result, ok, err, forbidden,
  fail_if, ◌>>◌, Option, none, some, if◌then◌else◌, ◌&&◌,
}
use family_quest.Domain.Dates.{Time}
use family_quest.Domain.Principals.{Principal, is_family_member, validate_role, role_child}

pub record Service : Type 0 where
  pub family_id : ℤ
  pub access_until : Option Time
  pub now : Time

pub data Mutation : Type 0 where
  interactive_mutation task_completion task_confirmation family_progress : Mutation

-- What a delegation to an agent may do.
abbrev pub is_delegated : Mutation → Bool
is_delegated interactive_mutation = false
is_delegated _ = true

abbrev pub is_err {ℓ} : {A : Type ℓ} → Result A → Bool
is_err (ok _) = false
is_err (err _) = true

unfoldable pub authorize_grant : Principal → Mutation → Result (Unit {0})
authorize_grant p action =
    if str_eq p.mcp_grant_id ""
    then ok tt
    else fail_if (p.mcp_read_only || not (is_family_member p) || not (is_delegated action))
        forbidden

unfoldable pub authorize_mutation : Service → Principal → Mutation → Result (Unit {0})
authorize_mutation s p action = do
  fail_if
      (not (eq_ℤ p.family_id s.family_id)
        || le_ℤ p.participant_id (pos 0)
        || is_err (validate_role p.role)
        || not (eq_ℤ p.confirmed_until (pos 0)))
      forbidden
  authorize_grant p action

abbrev pub is_open : Option Time → Time → Bool
is_open none now = true
is_open (some until) now = ltb now until

unfoldable pub check_write_access : Service → Result (Unit {0})
check_write_access s = fail_if (not (is_open s.access_until s.now)) forbidden

unfoldable pub check_bound : Service → Result (Unit {0})
check_bound s = if eq_ℤ s.family_id (pos 0) then ok tt else check_write_access s

unfoldable pub writable : Service → Principal → Mutation → Result (Unit {0})
writable s p action = do authorize_mutation s p action; check_bound s

-- `s.familyID > 0 && p.FamilyID != s.familyID`.
abbrev pub other_family : Service → Principal → Bool
other_family s p = lt_ℤ (pos 0) s.family_id && not (eq_ℤ p.family_id s.family_id)

-- `p.ParticipantID <= 0 || p.Role != domain.RoleChild`.
abbrev pub not_child : Principal → Bool
not_child p = le_ℤ p.participant_id (pos 0) || not (str_eq p.role role_child)
