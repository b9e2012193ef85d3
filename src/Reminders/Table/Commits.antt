-- ===== src/Reminders/Table/Commits.antt =====
-- Who may commit a delivery, and what a commit changes.
use nextral.Base.{
  ℕ, ◌≡◌, ◌⊎◌, inl, inr, arith, Bool, true, false, ◌&&◌, String, some, List, [], ◌∷◌, ◌++◌, find?,
  Option-cases, Bool-cases, ◌==◌, string_eq, str_iff, pair_eq, key_iff, get, get-insert,
}
use nextral.Contracts.{is_ok}
use nextral.Json.{Value}
use nextral.Audit.{AuditEvent}
use nextral.Lifecycle.Records.{LeaseClaim}
use nextral.Lifecycle.Leases.{state_key, holds_fence, is_owner}
use nextral.Lifecycle.Fencing.{holds_some}
use nextral.Reminders.Records.{ReminderRecord}
use nextral.Reminders.Table.{ReminderTables, put_reminder, commit_reminder_delivery}

module _ (tenant id : String) where
  abbrev pub is_row : ReminderRecord → Bool
  is_row m = m.tenant_id == tenant && m.id == id

  row-put :
      (ms : List ReminderRecord) (r : ReminderRecord)
      → is_row r ≡ true
      → find? is_row (put_reminder is_row ms r) ≡ some r
  unfolding put_reminder
  row-put [] r h = ground arith
  row-put (m ∷ ms) r h = ground (arith, row-put ms r)

-- A delivery is committed exactly for the present holder of the user's lease, within its scope: then
-- the reminder and the saved state are the new ones and the audit events are added; otherwise nothing
-- changes.
pub commit_reminder_delivery_lem :
    (s : ReminderTables) (now : ℕ) (claim : LeaseClaim) (key : String) (state : Value)
    (r : ReminderRecord) (audits : List AuditEvent)
    → let (t, outcome) = commit_reminder_delivery s now claim key state r audits in
      let permitted =
        holds_some claim now (get s.tables.lifecycle_fences (state_key claim))
        && claim.tenant_id == r.tenant_id
        && is_owner claim.user_id r.user_id in
      (permitted ≡ true)
        × (is_ok outcome ≡ true)
        × (find? (is_row r.tenant_id r.id) t.reminders ≡ some r)
        × (get t.tables.lifecycle_state (r.tenant_id, key) ≡ some state)
        × (t.audit_events ≡ s.audit_events ++ audits)
      ⊎ (permitted ≡ false) × (is_ok outcome ≡ false) × (t ≡ s)
unfolding commit_reminder_delivery
commit_reminder_delivery_lem s now claim key state r audits =
    elim (Option-cases (get s.tables.lifecycle_fences (state_key claim))) [
      | inl missing ↦ inr (ground arith, ground arith, ground arith)
      | inr (entry, found) ↦
          elim (Bool-cases (
            holds_fence claim now entry
            && claim.tenant_id == r.tenant_id
            && is_owner claim.user_id r.user_id)) [
              | inl permitted ↦
                  let mine : is_row r.tenant_id r.id r ≡ true =
                    ground (arith, str_iff r.tenant_id r.tenant_id, str_iff r.id r.id) in
                  let row = row-put r.tenant_id r.id s.reminders r mine in
                  inl (
                    ground arith,
                    ground arith,
                    ground (arith, row),
                    ground (
                      arith,
                      get-insert s.tables.lifecycle_state (r.tenant_id, key) (r.tenant_id, key)
                          state,
                      key_iff (r.tenant_id, key) (r.tenant_id, key),
                    ),
                    ground arith,
                  )
              | inr refused ↦ inr (ground arith, ground arith, ground arith)
            ]
    ]
