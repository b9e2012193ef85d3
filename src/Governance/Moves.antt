-- ===== src/Governance/Moves.antt =====
-- The record that a forget stores: whose it is, and what its status says.
use nextral.Base.{
  ◌≡◌, arith, inl, inr, true, false, not, ◌&&◌, ◌||◌, String, Option, none, some, Bool-cases, ◌==◌,
  string_eq, is_blank,
}
use nextral.Kinds.{MemoryStatus, soft_deleted, redacted, status_eq}
use nextral.Contracts.{ok, CoreResult-cases}
use nextral.Json.{Value}
use nextral.Memories.Records.{MemoryRecord, TransitionMetadata}
use nextral.Memories.Life.{transition, is_allowed}
use nextral.Memories.Store.{key_of}
use nextral.Governance.Interface.{
  ForgetMemoryRequest, ForgetMemoryResponse, GovernanceStore, GovernanceLibraries,
}
use nextral.Governance.{moved_to, is_live, begin, hide, erase}

moved_to_lem :
    (r moved : MemoryRecord) (to : MemoryStatus) (actor why now : String) (log : TransitionMetadata)
    → moved_to (transition r to actor why now) ≡ ok (moved, log)
    → (key_of moved ≡ key_of r) × (moved.status ≡ to)
unfolding transition
moved_to_lem r moved to actor why now log went =
    elim (Bool-cases (is_blank actor || is_blank why)) [
      | inl blank ↦ absurd (ground arith)
      | inr said ↦ elim (Bool-cases (not (is_allowed r.status to))) [
        | inl refused ↦ absurd (ground arith)
        | inr allowed ↦ elim (Bool-cases (to == redacted)) [
          | inl erased ↦ (ground arith, ground arith)
          | inr kept ↦ (ground arith, ground arith)
        ]
      ]
    ]

module _ {S : Type 0} (store : GovernanceStore S) (libraries : GovernanceLibraries)
    (request : ForgetMemoryRequest) where
  pub hide_lem :
      (r hidden : MemoryRecord) (response after : ForgetMemoryResponse) (now : String)
      → hide store libraries request r response now ≡ ok (hidden, after)
      → (key_of hidden ≡ key_of r)
        × (is_live hidden.status ≡ false)
        × (after.status ≡ response.status)
  unfolding hide
  hide_lem r hidden response after now went = elim (Bool-cases (is_live r.status)) [
    | inr hidden_before ↦ (ground arith, ground arith, ground arith)
    | inl live ↦
        elim (CoreResult-cases
          (moved_to (transition r soft_deleted request.actor request.reason now))) [
            | inr (failure, refused) ↦ absurd (ground arith)
            | inl ((moved, log), went_on) ↦
                let (same, gone) =
                  moved_to_lem r moved soft_deleted request.actor request.reason now log went_on in
                (ground (arith, same), ground (arith, gone), ground arith)
          ]
  ]

  pub erase_lem :
      (r blank : MemoryRecord) (response after : ForgetMemoryResponse) (now : String)
      → is_live r.status ≡ false
      → erase store libraries request r response now ≡ ok (blank, after)
      → (key_of blank ≡ key_of r)
        × (is_live blank.status ≡ false)
        × (request.redact ≡ true → blank.status ≡ redacted)
        × (after.status ≡ response.status)
  unfolding erase
  erase_lem r blank response after now hidden went =
      elim (Bool-cases (request.redact && r.status == soft_deleted)) [
        | inr other ↦ (ground arith, ground arith, λ asked. ground (arith, asked), ground arith)
        | inl erasing ↦
            elim (CoreResult-cases
              (moved_to (transition r redacted request.actor request.reason now))) [
                | inr (failure, refused) ↦ absurd (ground arith)
                | inl ((moved, log), went_on) ↦
                    let (same, gone) =
                      moved_to_lem r moved redacted request.actor request.reason now log went_on in
                    (
                      ground (arith, same),
                      ground (arith, gone),
                      λ asked. ground (arith, gone),
                      ground arith,
                    )
              ]
      ]

  pub begin_lem :
      (r begun : MemoryRecord) (existing : Option Value) (response : ForgetMemoryResponse)
      (now : String)
      → begin store libraries request r existing now ≡ ok (begun, response)
      → key_of begun ≡ key_of r
  unfolding begin
  begin_lem r begun (some value) response now went =
      elim (CoreResult-cases (libraries.from_value value)) [
        | inr (failure, refused) ↦ absurd (ground arith)
        | inl (stored, parsed) ↦ ground arith
      ]
  begin_lem r begun none response now went = elim (Bool-cases (is_live r.status)) [
    | inr hidden ↦ ground arith
    | inl live ↦
        elim (CoreResult-cases
          (moved_to (transition r soft_deleted request.actor request.reason now))) [
            | inr (failure, refused) ↦ absurd (ground arith)
            | inl ((moved, log), went_on) ↦
                let (same, gone) =
                  moved_to_lem r moved soft_deleted request.actor request.reason now log went_on in
                ground (arith, same)
          ]
  ]
