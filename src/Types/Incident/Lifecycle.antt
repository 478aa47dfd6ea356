-- ===== src/Types/Incident/Lifecycle.antt =====
-- The life of an incident and of a quarantined token in src/types/incident.rs.
use admissibility_kernel.Base.{is_some, ◌≡◌, ◌↔◌, refl, true, Str, arith}
use admissibility_kernel.Base.Int.{ℤ}
use admissibility_kernel.Types.Incident.{
  Severity, low, medium, high, critical, response_time_secs, requires_page, IncidentType,
  severity_of, Incident, new_incident, with_context, acknowledge, QuarantinedToken, quarantine,
  with_incident, review,
}

-- The states of an incident of the type, which is raised and handled by a caller.
pub data Handled (t : IncidentType) : Incident → Type 0 where
  raised : (id : Str) (now : ℤ) (source : Str) → Handled t (new_incident id now t source)
  noted : {i : Incident} (key value : Str) → Handled t i → Handled t (with_context i key value)
  acknowledged :
      {i : Incident} (now : ℤ) (by_whom : Str) → Handled t i → Handled t (acknowledge now i by_whom)

-- The severity is that of the type, and the record of who acknowledged is whole or absent.
pub record IsConsistent (t : IncidentType) (i : Incident) : Type 0 where
  pub of_type : i.incident_type ≡ t
  pub of_severity : i.severity ≡ severity_of t
  pub has_time : i.acknowledged ≡ is_some i.acknowledged_at
  pub has_name : i.acknowledged ≡ is_some i.acknowledged_by

-- However it is handled, an incident keeps its type and the severity of it, and is acknowledged
-- exactly if the time and the name of who did so are there.
pub Handled-IsConsistent : {t : IncidentType} {i : Incident} → Handled t i → IsConsistent t i
unfolding new_incident with_context acknowledge
Handled-IsConsistent (raised id now source) = ground arith
Handled-IsConsistent (noted key value h) = let c = Handled-IsConsistent h in ground (arith, c)
Handled-IsConsistent (acknowledged now by_whom h) =
    let c = Handled-IsConsistent h in ground (arith, c)

-- The states of a quarantined token.
pub data Reviewed : QuarantinedToken → Type 0 where
  taken :
      (id : Str) (now : ℤ) (hash fingerprint reason : Str)
      → Reviewed (quarantine id now hash fingerprint reason)
  linked :
      {t : QuarantinedToken} (incident_id : Str)
      → Reviewed t
      → Reviewed (with_incident t incident_id)
  decided :
      {t : QuarantinedToken} (now : ℤ) (decision : Str)
      → Reviewed t
      → Reviewed (review now t decision)

-- A quarantined token is reviewed exactly if a decision and its time are there.
pub Reviewed-is_some :
    {t : QuarantinedToken}
    → Reviewed t
    → (t.reviewed ≡ is_some t.review_decision) × (t.reviewed ≡ is_some t.reviewed_at)
unfolding quarantine with_incident review
Reviewed-is_some (taken id now hash fingerprint reason) = (refl, refl)
Reviewed-is_some (linked incident_id h) = Reviewed-is_some h
Reviewed-is_some (decided now decision h) = (refl, refl)

-- An incident pages exactly if it has to be answered at once.
pub requires_page_iff : (s : Severity) → (requires_page s ≡ true) ↔ (response_time_secs s ≡ 0)
unfolding requires_page response_time_secs
requires_page_iff low = ground arith
requires_page_iff medium = ground arith
requires_page_iff high = ground arith
requires_page_iff critical = ground arith
