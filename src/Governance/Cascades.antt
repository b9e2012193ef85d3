-- ===== src/Governance/Cascades.antt =====
-- runtime/storage.rs, TestMemoryStore::lifecycle_forget: which memories it leaves alone.
use nextral.Base.{
  ◌≡◌, refl, ap, ◌∙◌, sym, arith, inl, inr, Bool, false, not, ◌&&◌, ◌||◌, String, Option, none,
  some, List, [], ◌∷◌, find?, Bool-cases, ◌==◌, if◌then◌else◌, string_eq, triple_iff, pair_eq,
  triple_eq, is_blank,
}
use nextral.Kinds.{MemoryStatus, active, soft_deleted, redacted, status_eq}
use nextral.Contracts.{CoreResult, ok, err, CoreResult-cases}
use nextral.Json.{Value}
use nextral.Memories.Records.{MemoryRecord, TransitionMetadata}
use nextral.Memories.Life.{transition, is_allowed}
use nextral.Memories.Store.{
  MemoryTables, asks_redaction, tombstone_of, key_of, protect_all, protect_once,
}
use nextral.Governance.{is_live}
use nextral.Governance.Tables.{
  tried, hide_derived, redact_derived, forget_derived, is_derived, cascade,
}

some_value : {a b : MemoryRecord} → some a ≡ some b → a ≡ b
some_value h = cc

key-protect_once :
    (m : MemoryRecord) (tombstone : Option Value) → key_of (protect_once m tombstone) ≡ key_of m
unfolding protect_once
key-protect_once m none = refl
key-protect_once m (some tombstone) = elim (Bool-cases (asks_redaction tombstone)) [
  | inl asked ↦ rw asked refl
  | inr plain ↦ rw plain refl
]

pub key-protected :
    (s : MemoryTables) (sources : List String) (m : MemoryRecord)
    → key_of (protect_all s m sources) ≡ key_of m
unfolding protect_all
key-protected s [] m = refl
key-protected s (source ∷ rest) m =
    key-protected s rest (protect_once m (tombstone_of s m source))
    ∙ key-protect_once m (tombstone_of s m source)

status-protect_once :
    (m : MemoryRecord) (tombstone : Option Value)
    → is_live m.status ≡ false
    → (protect_once m tombstone).status ≡ m.status
unfolding protect_once
status-protect_once m none gone = refl
status-protect_once m (some tombstone) gone =
    let inactive : (m.status == active) ≡ false = ground (arith, gone) in
    elim (Bool-cases (asks_redaction tombstone)) [
      | inl asked ↦ rw (asked, inactive) refl
      | inr plain ↦ rw (plain, inactive) refl
    ]

pub status-protected :
    (s : MemoryTables) (sources : List String) (m : MemoryRecord)
    → is_live m.status ≡ false
    → (protect_all s m sources).status ≡ m.status
unfolding protect_all
status-protected s [] m gone = refl
status-protected s (source ∷ rest) m gone =
    let once = status-protect_once m (tombstone_of s m source) gone in
    status-protected s rest (protect_once m (tombstone_of s m source)) (ap is_live once ∙ gone)
    ∙ once

pub find-key :
    (ms : List MemoryRecord) (k : String × String × String) (m : MemoryRecord)
    → find? (λ x. key_of x == k) ms ≡ some m
    → key_of m ≡ k
find-key [] k m h = cc
find-key (x ∷ ms) k m h = elim (Bool-cases (key_of x == k)) [
  | inl same ↦
      let here : some x ≡ some m = rw same at h in
      ap key_of (sym (some_value here)) ∙ (triple_iff (key_of x) k).0 same
  | inr other ↦ find-key ms k m (rw other at h)
]

key-transition :
    (r : MemoryRecord) (to : MemoryStatus) (actor why now : String)
    → key_of (transition r to actor why now).0 ≡ key_of r
unfolding transition
key-transition r to actor why now = elim (Bool-cases (is_blank actor || is_blank why)) [
  | inl blank ↦ ground (arith, blank)
  | inr said ↦ elim (Bool-cases (not (is_allowed r.status to))) [
    | inl refused ↦ ground (arith, said, refused)
    | inr allowed ↦ elim (Bool-cases (to == redacted)) [
      | inl erased ↦ ground (arith, said, allowed, erased)
      | inr kept ↦ ground (arith, said, allowed, kept)
    ]
  ]
]

key-tried :
    (did : MemoryRecord × CoreResult TransitionMetadata) → key_of (tried did).0 ≡ key_of did.0
key-tried (m, err failure) = refl
key-tried (m, ok log) = refl

key-redacted :
    (user : String) (redact : Bool) (now : String) (first : MemoryRecord × CoreResult (Unit {0}))
    → key_of (redact_derived user redact now first).0 ≡ key_of first.0
key-redacted user redact now (m, err failure) = refl
key-redacted user redact now (m, ok done) = elim (Bool-cases (redact && m.status == soft_deleted)) [
  | inl asked ↦ rw asked (
      key-tried (transition m redacted user "source redacted" now)
      ∙ key-transition m redacted user "source redacted" now)
  | inr plain ↦ rw plain refl
]

key-forget_derived :
    (user : String) (redact : Bool) (now : String) (m : MemoryRecord)
    → key_of (forget_derived user redact now m).0 ≡ key_of m
unfolding forget_derived
key-forget_derived user redact now m =
    key-redacted user redact now (hide_derived user now m) ∙ elim (Bool-cases (is_live m.status)) [
      | inl live ↦ rw live (
          key-tried (transition m soft_deleted user "source forgotten" now)
          ∙ key-transition m soft_deleted user "source forgotten" now)
      | inr hidden ↦ rw hidden refl
    ]

-- A cascade leaves the memory alone that it starts from.
pub find-cascade :
    (tenant user id : String) (sources : List String) (redact : Bool) (now : String)
    (ms : List MemoryRecord)
    → find? (λ x. key_of x == (tenant, user, id)) (cascade tenant user id sources redact now ms).0
      ≡ find? (λ x. key_of x == (tenant, user, id)) ms
unfolding cascade
find-cascade tenant user id sources redact now [] = refl
find-cascade tenant user id sources redact now (m ∷ ms) =
    elim (Bool-cases (is_derived tenant user id sources m)) [
      | inr other ↦ rw other (
          ap (λ found. if key_of m == (tenant, user, id) then some m else found)
            (find-cascade tenant user id sources redact now ms))
      | inl derived ↦
          let did = forget_derived user redact now m in
          let elsewhere : (key_of m == (tenant, user, id)) ≡ false = ground (arith, derived) in
          let moved : (key_of did.0 == (tenant, user, id)) ≡ false =
            ap (λ k. k == (tenant, user, id)) (key-forget_derived user redact now m) ∙ elsewhere in
          elim (CoreResult-cases did.1) [
            | inr (failure, refused) ↦ rw (derived, refused, moved, elsewhere) refl
            | inl (done, went) ↦
                rw (derived, went, moved, elsewhere)
                  (find-cascade tenant user id sources redact now ms)
          ]
    ]
