-- ===== src/People/Grants.antt =====
-- Delegations to agents (backend/internal/store/mcp.go). `ListMCPGrants` only reads.
use family_quest.Base.{
  Bool, not, ◌&&◌, List, [], ◌∷◌, ◌++◌, map, String, ℤ, eq_ℤ, str_eq, any, ltb, Result, ok, err,
  not_found, unauthorized, if◌then◌else◌,
}
use family_quest.Domain.Dates.{Time}
use family_quest.People.Tables.{Person, Grant, House}
use family_quest.People.Devices.{first_time, was_revoked}

abbrev pub grants_to : Grant → Person → Bool
grants_to g p = eq_ℤ p.id g.participant_id && p.active && eq_ℤ p.session_version g.session_version

-- `CreateMCPGrant`.
unfoldable pub create_mcp_grant : House → Grant → House × Result (Unit {0})
create_mcp_grant w g =
    if any (grants_to g) w.people
    then (record w { grants = w.grants ++ g ∷ [] }, ok tt)
    else (w, err unauthorized)

abbrev pub is_in_force : String → ℤ → ℤ → Time → Grant → Bool
is_in_force id owner version now g =
    str_eq g.id id
    && eq_ℤ g.participant_id owner
    && eq_ℤ g.session_version version
    && not (was_revoked g.revoked_at)
    && ltb now g.expires_at

unfoldable pub find_grant : String → ℤ → ℤ → Time → List Grant → Result Grant
find_grant id owner version now [] = err unauthorized
find_grant id owner version now (g ∷ gs) =
    let rest = find_grant id owner version now gs in
    if is_in_force id owner version now g then ok g else rest

-- `MCPGrant`.
unfoldable pub mcp_grant : House → String → ℤ → ℤ → Time → Result Grant
mcp_grant w id owner version now = find_grant id owner version now w.grants

abbrev pub grant_with : String → Grant → Bool
grant_with id g = str_eq g.id id

unfoldable pub revoke_grants : String → Time → List Grant → List Grant
revoke_grants id now gs =
    map (λ g. if grant_with id g then record g { revoked_at = first_time g.revoked_at now } else g)
      gs

-- `RevokeMCPGrant`.
unfoldable pub revoke_mcp_grant : House → String → Time → House × Result (Unit {0})
revoke_mcp_grant w id now =
    if any (grant_with id) w.grants
    then (record w { grants = revoke_grants id now w.grants }, ok tt)
    else (w, err not_found)
