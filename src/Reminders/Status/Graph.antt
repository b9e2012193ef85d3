-- ===== src/Reminders/Status/Graph.antt =====
-- What histories of transitions can do to a reminder.
use nextral.Base.{
  ℕ, ◌+◌, ◌-◌, ◌^◌, ◌≤◌, min, ◌≡◌, refl, arith, Bool, true, false, not, ◌||◌, ◌&&◌, String, List,
  [], ◌∷◌, ◌==◌, is_blank, Bool-cases, inl, inr, if◌then◌else◌,
}
use nextral.Contracts.{ok, err}
use nextral.Reminders.Records.{
  ReminderStatus, dispatched, completed, cancelled, expired, status_eq, status_iff, ReminderRecord,
  ReminderTransition,
}
use nextral.Reminders.Status.{is_allowed, transition, moved}

pub record Move : Type 0 where
  pub to : ReminderStatus
  pub actor : String
  pub reason : String
  pub now : String

-- A history of attempted transitions, of which some may be refused.
unfoldable pub replay : ReminderRecord → List Move → ReminderRecord
unfolding transition
replay reminder [] = reminder
replay reminder (m ∷ ms) = replay (transition reminder m.to m.actor m.reason m.now).0 ms

abbrev pub is_closed : ReminderStatus → Bool
is_closed completed = true
is_closed cancelled = true
is_closed expired = true
is_closed _ = false

closed_step :
    (r : ReminderRecord)
    → is_closed r.status ≡ true
    → (to : ReminderStatus) (actor reason now : String) → (transition r to actor reason now).0 ≡ r
unfolding transition
closed_step r closed to actor reason now = ground arith

-- A reminder that is completed, cancelled or expired is what it is after any attempted transitions.
pub closed_final :
    (ms : List Move) (r : ReminderRecord) → is_closed r.status ≡ true → replay r ms ≡ r
unfolding replay
closed_final [] r closed = refl
closed_final (m ∷ ms) r closed =
    rw (closed_step r closed m.to m.actor m.reason m.now) (closed_final ms r closed)

-- The transitions that were accepted, in order.
unfoldable pub accepted : ReminderRecord → List Move → List ReminderTransition
unfolding transition
accepted reminder [] = []
accepted reminder (m ∷ ms) =
    let (after, outcome) = transition reminder m.to m.actor m.reason m.now in
    elim outcome [ ok done ↦ done ∷ accepted after ms | err refusal ↦ accepted after ms ]

-- Each transition is allowed and starts where the one before it ended.
abbrev pub is_chain : ReminderStatus → List ReminderTransition → ReminderStatus → Bool
is_chain start [] end = start == end
is_chain start (t ∷ ts) end = t.from == start && is_allowed t.from t.to && is_chain t.to ts end

abbrev pub dispatches : List ReminderTransition → ℕ
dispatches [] = 0
dispatches (t ∷ ts) = if t.to == dispatched then dispatches ts + 1 else dispatches ts

-- The accepted transitions of a history form a chain of allowed transitions from the status before it
-- to the status after it, and the attempts that the reminder counts grow by the dispatches among them,
-- up to the largest u32.
pub transition_log :
    (ms : List Move) (r : ReminderRecord)
    → r.attempt_count ≤ 2 ^ 32 - 1
    → (is_chain r.status (accepted r ms) (replay r ms).status ≡ true)
      × ((replay r ms).attempt_count
          ≡ min (r.attempt_count + dispatches (accepted r ms)) (2 ^ 32 - 1))
unfolding replay accepted
transition_log [] r small = (ground (arith, status_iff r.status r.status), omega arith)
transition_log (m ∷ ms) r small =
    elim (Bool-cases (is_blank m.actor || is_blank m.reason || not (is_allowed r.status m.to))) [
      | inl refused ↦
          let rest = transition_log ms r small in
          (unfold transition in ground (arith, rest), unfold transition in ground (arith, rest))
      | inr allowed ↦
          let rest = transition_log ms (moved r m.to m.now) (unfold moved in ground arith) in
          (
            unfold transition moved in ground (arith, rest, status_iff r.status r.status),
            unfold transition moved in ground (arith, rest),
          )
    ]
