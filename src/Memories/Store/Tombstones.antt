-- ===== src/Memories/Store/Tombstones.antt =====
-- What the tombstones of forgotten sources protect.
use nextral.Base.{
  ◌≡◌, ◌∙◌, refl, arith, Bool, true, false, not, ◌&&◌, String, Option, none, some, is_some, List,
  [], ◌∷◌, any, is_empty, Bool-cases, inl, inr, ◌==◌, string_eq, pair_eq,
}
use nextral.Kinds.{active, status_eq}
use nextral.Json.{Value}
use nextral.Memories.Records.{MemoryRecord}
use nextral.Memories.Store.{
  MemoryTables, tombstone_of, asks_redaction, protect_once, protect_all, protect_record,
  find_memory, get_memory,
}

abbrev pub is_active : MemoryRecord → Bool
is_active r = r.status == active

abbrev pub is_blanked : MemoryRecord → Bool
is_blanked r = r.content == "[redacted]" && is_empty r.entities && is_empty r.tags

abbrev pub wants_redaction : Option Value → Bool
wants_redaction none = false
wants_redaction (some tombstone) = asks_redaction tombstone

module _ (s : MemoryTables) where
  once-tombstone :
      (r : MemoryRecord) (t : Option Value) (source : String)
      → tombstone_of s (protect_once r t) source ≡ tombstone_of s r source
  unfolding protect_once
  once-tombstone r none source = refl
  once-tombstone r (some tombstone) source = elim (Bool-cases (asks_redaction tombstone)) [
    | inl redact ↦ rw redact refl
    | inr keep ↦ rw keep refl
  ]

  once-inactive :
      (r : MemoryRecord) (t : Option Value)
      → is_active r ≡ false
      → is_active (protect_once r t) ≡ false
  unfolding protect_once
  once-inactive r none h = h
  once-inactive r (some tombstone) h = ground arith

  once-blanked :
      (r : MemoryRecord) (t : Option Value)
      → is_blanked r ≡ true
      → is_blanked (protect_once r t) ≡ true
  unfolding protect_once
  once-blanked r none h = h
  once-blanked r (some tombstone) h = elim (Bool-cases (asks_redaction tombstone)) [
    | inl redact ↦ rw redact refl
    | inr keep ↦ rw keep h
  ]

  once-hides :
      (r : MemoryRecord) (t : Option Value)
      → is_some t ≡ true
      → is_active (protect_once r t) ≡ false
  unfolding protect_once
  once-hides r none h = absurd (ground arith)
  once-hides r (some tombstone) h = ground arith

  once-blanks :
      (r : MemoryRecord) (t : Option Value)
      → wants_redaction t ≡ true
      → is_blanked (protect_once r t) ≡ true
  unfolding protect_once
  once-blanks r none h = absurd (ground arith)
  once-blanks r (some tombstone) h = rw h refl

  pub all-inactive :
      (sources : List String) (r : MemoryRecord)
      → is_active r ≡ false
      → is_active (protect_all s r sources) ≡ false
  unfolding protect_all
  all-inactive [] r h = h
  all-inactive (source ∷ rest) r h =
      all-inactive rest (protect_once r (tombstone_of s r source))
        (once-inactive r (tombstone_of s r source) h)

  all-blanked :
      (sources : List String) (r : MemoryRecord)
      → is_blanked r ≡ true
      → is_blanked (protect_all s r sources) ≡ true
  unfolding protect_all
  all-blanked [] r h = h
  all-blanked (source ∷ rest) r h =
      all-blanked rest (protect_once r (tombstone_of s r source))
        (once-blanked r (tombstone_of s r source) h)

  any-once :
      (P : Option Value → Bool) (sources : List String) (r : MemoryRecord) (t : Option Value)
      → any (λ source. P (tombstone_of s (protect_once r t) source)) sources
        ≡ any (λ source. P (tombstone_of s r source)) sources
  any-once P [] r t = refl
  any-once P (source ∷ rest) r t = rw (once-tombstone r t source, any-once P rest r t) refl

  all-hides :
      (sources : List String) (r : MemoryRecord)
      → any (λ source. is_some (tombstone_of s r source)) sources ≡ true
      → is_active (protect_all s r sources) ≡ false
  unfolding protect_all
  all-hides [] r h = absurd (ground arith)
  all-hides (source ∷ rest) r h =
      let t = tombstone_of s r source in
      elim (Bool-cases (is_some t)) [
        | inl hit ↦ all-inactive rest (protect_once r t) (once-hides r t hit)
        | inr miss ↦ all-hides rest (protect_once r t) (any-once is_some rest r t ∙ ground arith)
      ]

  all-blanks :
      (sources : List String) (r : MemoryRecord)
      → any (λ source. wants_redaction (tombstone_of s r source)) sources ≡ true
      → is_blanked (protect_all s r sources) ≡ true
  unfolding protect_all
  all-blanks [] r h = absurd (ground arith)
  all-blanks (source ∷ rest) r h =
      let t = tombstone_of s r source in
      elim (Bool-cases (wants_redaction t)) [
        | inl hit ↦ all-blanked rest (protect_once r t) (once-blanks r t hit)
        | inr miss ↦
            all-blanks rest (protect_once r t) (any-once wants_redaction rest r t ∙ ground arith)
      ]

  -- A record with a forgotten source is never given out as active, and one with a source whose
  -- tombstone asks for redaction is given out with its content, entities and tags blanked, whatever
  -- the stored record says.
  pub forgotten_source_protected :
      (tenant user id : String) (r : MemoryRecord)
      → find_memory s (tenant, user, id) ≡ some r
      → any (λ source. is_some (tombstone_of s r source)) r.source_message_ids ≡ true
      → (m : MemoryRecord) × (get_memory s tenant user id ≡ some m)
        × (is_active m ≡ false)
        × ((any (λ source. wants_redaction (tombstone_of s r source)) r.source_message_ids
              && not (is_blanked m))
            ≡ false)
  unfolding get_memory protect_record
  forgotten_source_protected tenant user id r found hit = (
    protect_record s r,
    rw (found, get_memory) refl,
    all-hides r.source_message_ids r hit,
    ground (arith, all-blanks r.source_message_ids r),
  )
