-- ===== src/Reminders/Table/Listing.antt =====
-- testkit/mod.rs, list_due_reminders: which reminders are listed as due.
use mathlib.Core.Path.{subst}
use nextral.Base.{
  ℕ, ◌≤◌, ◌≡◌, refl, sym, arith, ◌⊎◌, inl, inr, Bool, true, false, String, List, [], ◌∷◌, Among,
  at_head, at_tail, Among-cases, Among-nil, ◌↔◌, ◌∙◌, leb, Bool-cases, string_eq, str_iff,
  if◌then◌else◌,
}
use nextral.Contracts.{ok, CoreResult-cases, ok_value, chain_value}
use nextral.Timestamps.{Chrono, timestamp_nanos}
use nextral.Reminders.Records.{ReminderRecord, ReminderStatus, scheduled, due, retry_scheduled}
use nextral.Reminders.Status.{is_due_visible}
use nextral.Reminders.Table.{
  ReminderTables, effective_at, is_candidate, due_among, list_due_reminders,
}

module _ (chrono : Chrono) (tenant user : String) (at : ℕ) where
  -- The reminder is the user's own, waits (scheduled, due or to be retried), and the time of its next
  -- attempt, or else of its due date, has come.
  pub record Waits (r : ReminderRecord) : Type 0 where
    pub of_tenant : r.tenant_id ≡ tenant
    pub of_user : r.user_id ≡ user
    pub waiting : (r.status ≡ scheduled) ⊎ (r.status ≡ due) ⊎ (r.status ≡ retry_scheduled)
    pub time : ℕ
    pub read : timestamp_nanos chrono (effective_at r) ≡ ok time
    pub has_come : time ≤ at

  waiting_of :
      (r : ReminderRecord)
      → is_due_visible r ≡ true
      → (r.status ≡ scheduled) ⊎ (r.status ≡ due) ⊎ (r.status ≡ retry_scheduled)
  unfolding is_due_visible
  waiting_of r h = of_status r.status h
    where
      of_status :
          (status : ReminderStatus)
          → elim status as (λ x. Bool) [
            | scheduled ↦ true
            | due ↦ true
            | retry_scheduled ↦ true
            | _ ↦ false
          ]
            ≡ true
          → (status ≡ scheduled) ⊎ (status ≡ due) ⊎ (status ≡ retry_scheduled)
      of_status scheduled e = inl refl
      of_status due e = inr (inl refl)
      of_status retry_scheduled e = inr (inr refl)
      of_status _ e = cc

  visible_of : (r : ReminderRecord) → Waits r → is_due_visible r ≡ true
  unfolding is_due_visible
  visible_of r w = elim w.waiting [
    | inl e ↦ rw e refl
    | inr (inl e) ↦ rw e refl
    | inr (inr e) ↦ rw e refl
  ]

  candidate_of : (r : ReminderRecord) → Waits r → is_candidate tenant user r ≡ true
  candidate_of r w =
      rw
        (
          (str_iff r.tenant_id tenant).1 w.of_tenant,
          (str_iff r.user_id user).1 w.of_user,
          visible_of r w,
        )
        refl

  listed_after :
      (r : ReminderRecord) (rest listed : List ReminderRecord)
      → due_among chrono tenant user at (r ∷ rest) ≡ ok listed
      → (later : List ReminderRecord) × (due_among chrono tenant user at rest ≡ ok later)
        × ((is_candidate tenant user r ≡ false) × (listed ≡ later)
            ⊎ (is_candidate tenant user r ≡ true)
              × (time : ℕ) × (timestamp_nanos chrono (effective_at r) ≡ ok time)
              × (listed ≡ (if leb time at then r ∷ later else later)))
  unfolding due_among
  listed_after r rest listed h = elim (Bool-cases (is_candidate tenant user r)) [
    | inr other ↦ (listed, ground (arith, other, h), inl (other, refl))
    | inl mine ↦ elim (CoreResult-cases (timestamp_nanos chrono (effective_at r))) [
      | inr (failure, unread) ↦ absurd (ground (arith, mine, unread, h))
      | inl (time, read) ↦ elim (CoreResult-cases (due_among chrono tenant user at rest)) [
        | inr (failure, failed) ↦ absurd (ground (arith, mine, read, failed, h))
        | inl (later, found) ↦
            (later, found, inr (mine, time, read, ground (arith, mine, read, found, h)))
      ]
    ]
  ]

  Waits-of :
      (r : ReminderRecord) (time : ℕ)
      → is_candidate tenant user r ≡ true
      → timestamp_nanos chrono (effective_at r) ≡ ok time
      → leb time at ≡ true
      → Waits r
  Waits-of r time mine read come = record {
    of_tenant = (str_iff r.tenant_id tenant).0 (ground (arith, mine));
    of_user = (str_iff r.user_id user).0 (ground (arith, mine));
    waiting = waiting_of r (ground (arith, mine));
    time = time;
    read = read;
    has_come = ground (arith, come);
  }

  due_among-only :
      (rs listed : List ReminderRecord) (x : ReminderRecord)
      → due_among chrono tenant user at rs ≡ ok listed
      → Among x listed
      → Among x rs × Waits x
  unfolding due_among
  due_among-only [] listed x h there = Among-nil (subst (Among x) (ok_value (sym h)) there)
  due_among-only (r ∷ rest) listed x h there =
      let (later, found, how) = listed_after r rest listed h in
      let further : Among x later → Among x (r ∷ rest) × Waits x =
        λ m. let (old, waits) = due_among-only rest later x found m in (at_tail old, waits) in
      elim how [
        | inl (other, same) ↦ further (subst (Among x) same there)
        | inr (mine, time, read, same) ↦ elim (Bool-cases (leb time at)) [
          | inl come ↦
              let shown : listed ≡ r ∷ later = rw come at same in
              elim (Among-cases (subst (Among x) shown there)) [
                | inl e ↦ (at_head e, subst Waits (sym e) (Waits-of r time mine read come))
                | inr m ↦ further m
              ]
          | inr not_yet ↦
              let shown : listed ≡ later = rw not_yet at same in
              further (subst (Among x) shown there)
        ]
      ]

  due_among-all :
      (rs listed : List ReminderRecord) (x : ReminderRecord)
      → due_among chrono tenant user at rs ≡ ok listed
      → Among x rs
      → Waits x
      → Among x listed
  due_among-all [] listed x h there w = Among-nil there
  due_among-all (r ∷ rest) listed x h there w =
      let (later, found, how) = listed_after r rest listed h in
      let further : Among x rest → Among x later = λ m. due_among-all rest later x found m w in
      elim how [
        | inl (other, same) ↦ elim (Among-cases there) [
          | inl e ↦
              let mine = candidate_of r (subst Waits e w) in absurd (ground (arith, mine, other))
          | inr m ↦ subst (Among x) (sym same) (further m)
        ]
        | inr (mine, time, read, same) ↦ elim (Bool-cases (leb time at)) [
          | inl come ↦
              let shown : listed ≡ r ∷ later = rw come at same in
              subst (Among x) (sym shown)
                (elim (Among-cases there) [ inl e ↦ at_head e | inr m ↦ at_tail (further m) ])
          | inr not_yet ↦
              let shown : listed ≡ later = rw not_yet at same in
              elim (Among-cases there) [
                | inl e ↦ absurd (late r time read not_yet (subst Waits e w))
                | inr m ↦ subst (Among x) (sym shown) (further m)
              ]
        ]
      ]
    where
      late :
          (r : ReminderRecord) (time : ℕ)
          → timestamp_nanos chrono (effective_at r) ≡ ok time
          → leb time at ≡ false
          → Waits r
          → ⊥
      late r time read not_yet w =
          let same : time ≡ w.time = ok_value (sym read ∙ w.read) in
          ground (arith, not_yet, same, w.has_come)

-- The reminders that are listed as due are exactly the user's own that wait (scheduled, due or to be
-- retried) and whose time has come by the cutoff: one that a worker left dispatched or failed is never
-- listed, and none of the others is passed over.
pub list_due_reminders-visible :
    (chrono : Chrono) (s : ReminderTables) (tenant user cutoff : String)
    (listed : List ReminderRecord)
    → list_due_reminders chrono s tenant user cutoff ≡ ok listed
    → (at : ℕ) × (timestamp_nanos chrono cutoff ≡ ok at)
      × ((x : ReminderRecord)
          → Among x listed ↔ (Among x s.reminders × Waits chrono tenant user at x))
unfolding list_due_reminders
list_due_reminders-visible chrono s tenant user cutoff listed h =
    let (at, found, read) =
      chain_value (timestamp_nanos chrono cutoff) (λ t. due_among chrono tenant user t s.reminders)
        h in
    (
      at,
      read,
      λ x. (
        due_among-only chrono tenant user at s.reminders listed x found,
        λ both. due_among-all chrono tenant user at s.reminders listed x found both.0 both.1,
      ),
    )
