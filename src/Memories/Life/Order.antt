-- ===== src/Memories/Life/Order.antt =====
-- The status of a record only ever moves on.
use nextral.Base.{
  ℕ, ◌<◌, ◌≡◌, refl, arith, Bool, true, false, not, ◌&&◌, ◌||◌, String, is_empty, is_some, ◌⊎◌, inl,
  inr, Bool-cases, ◌==◌, string_eq, is_blank, if◌then◌else◌,
}
use nextral.Kinds.{MemoryStatus, active, soft_deleted, redacted, archived, status_eq}
use nextral.Contracts.{is_ok}
use nextral.Memories.Records.{MemoryRecord}
use nextral.Memories.Life.{transition, is_allowed, blank_out}

abbrev pub rank : MemoryStatus → ℕ
rank active = 0
rank archived = 1
rank soft_deleted = 2
rank redacted = 3

-- The content, the entities, the tags and the embedding of a record are gone.
abbrev pub is_emptied : MemoryRecord → Bool
is_emptied r =
    r.content == "[redacted]" && is_empty r.entities && is_empty r.tags && not (is_some r.embedding)

emptied_if :
    (to : MemoryStatus) (r : MemoryRecord)
    → (to == redacted && not (is_emptied (if to == redacted then blank_out r else r))) ≡ false
emptied_if redacted r = refl
emptied_if _ r = refl

-- An accepted transition gives the record the new status, which stands strictly later in the order
-- active, archived, soft-deleted, redacted; a record that becomes redacted is emptied. A refused
-- transition leaves the record as it was.
pub transition_lem :
    (r : MemoryRecord) (to : MemoryStatus) (actor reason now : String)
    → (is_ok (transition r to actor reason now).1 ≡ true)
        × (rank r.status < rank to)
        × ((transition r to actor reason now).0.status ≡ to)
        × ((to == redacted && not (is_emptied (transition r to actor reason now).0)) ≡ false)
      ⊎ (is_ok (transition r to actor reason now).1 ≡ false)
        × ((transition r to actor reason now).0 ≡ r)
unfolding transition
transition_lem r to actor reason now =
    elim (Bool-cases (is_blank actor || is_blank reason || not (is_allowed r.status to))) [
      | inl refused ↦ inr (ground arith, ground arith)
      | inr granted ↦
          let blank : (is_blank actor || is_blank reason) ≡ false = ground arith in
          let granted_test : not (is_allowed r.status to) ≡ false = ground arith in
          inl (
            ground arith,
            ground arith,
            ground arith,
            rw (blank, granted_test) (emptied_if to (record r { status = to; updated_at = now })),
          )
    ]
