-- ===== src/Memories/Store/Lookup.antt =====
-- What the store's operations do to the records that it finds.
use nextral.Base.{
  ◌≡◌, ap, ◌∙◌, sym, refl, arith, true, false, ◌&&◌, String, some, List, [], ◌∷◌, find?, contains,
  map, ◌⊎◌, inl, inr, Bool-cases, ◌==◌, string_eq, triple_eq, triple_iff, if◌then◌else◌,
}
use nextral.Memories.Records.{MemoryRecord}
use mathlib.Core.Option
use nextral.Kinds.{active, status_eq}
use nextral.Contracts.{is_ok}
use nextral.Timestamps.{Chrono}
use nextral.Memories.Life.{mark_accessed}
use nextral.Memories.Store.{
  MemoryTables, MemoryKey, put_memory, key_of, accessed, find_memory, upsert_memory, is_forgotten,
}

pub find-put :
    (ms : List MemoryRecord) (r : MemoryRecord) (k : MemoryKey)
    → find? (λ m. key_of m == k) (put_memory ms r)
      ≡ (if key_of r == k then some r else find? (λ m. key_of m == k) ms)
unfolding put_memory
find-put [] r k = ground arith
find-put (m ∷ ms) r k = ground (
  arith,
  find-put ms r k,
  triple_iff (key_of m) (key_of r),
  triple_iff (key_of r) k,
  triple_iff (key_of m) k,
)

module _ (tenant user : String) (ids : List String) (now : String) (k : MemoryKey) where
  accessed-key : (m : MemoryRecord) → key_of (accessed tenant user ids now m) ≡ key_of m
  unfolding mark_accessed
  accessed-key m =
      elim (Bool-cases
        (m.tenant_id == tenant && m.user_id == user && m.status == active && contains ids m.id)) [
          | inl hit ↦ rw hit refl
          | inr miss ↦ rw miss refl
        ]

  pub find-access :
      (ms : List MemoryRecord)
      → find? (λ m. key_of m == k) (map (accessed tenant user ids now) ms)
        ≡ Option.map (accessed tenant user ids now) (find? (λ m. key_of m == k) ms)
  find-access [] = refl
  find-access (m ∷ ms) =
      let same_key = ap (λ j. j == k) (accessed-key m) in
      elim (Bool-cases (key_of m == k)) [
        | inl found ↦ rw (same_key ∙ found, found) refl
        | inr other ↦ rw (same_key ∙ other, other) (find-access ms)
      ]

module _ (chrono : Chrono) (s : MemoryTables) (r : MemoryRecord) (k : MemoryKey) where
  -- An upsert puts the record under its key or changes nothing.
  pub find-upsert :
      (find_memory (upsert_memory chrono s r).0 k ≡ find_memory s k)
      ⊎ ((key_of r ≡ k)
          × (find_memory (upsert_memory chrono s r).0 k ≡ some r)
          × ((r.status == active && is_forgotten s r) ≡ false))
  unfolding upsert_memory find_memory
  find-upsert = elim (Bool-cases (key_of r == k)) [
    | inl same ↦
        unfold find_memory upsert_memory in
        ground (arith, find-put s.memories r k, triple_iff (key_of r) k)
    | inr other ↦ inl (unfold find_memory upsert_memory in ground (arith, find-put s.memories r k))
  ]

  -- An accepted upsert stores the record under its key and leaves what is stored under every other key
  -- as it was; a refused one changes nothing at all.
  pub upsert_memory_lem :
      (is_ok (upsert_memory chrono s r).1 ≡ true)
        × (find_memory (upsert_memory chrono s r).0 (key_of r) ≡ some r)
        × ((k ≡ key_of r) ⊎ (find_memory (upsert_memory chrono s r).0 k ≡ find_memory s k))
      ⊎ (is_ok (upsert_memory chrono s r).1 ≡ false) × ((upsert_memory chrono s r).0 ≡ s)
  unfolding upsert_memory find_memory
  upsert_memory_lem = elim (Bool-cases (is_ok (upsert_memory chrono s r).1)) [
    | inl good ↦ inl (
      good,
      ground (arith, find-put s.memories r (key_of r), triple_iff (key_of r) (key_of r)),
      elim (Bool-cases (key_of r == k)) [
        | inl same ↦ inl (sym ((triple_iff (key_of r) k).0 same))
        | inr other ↦ inr (ground (arith, find-put s.memories r k))
      ],
    )
    | inr bad ↦ inr (bad, ground arith)
  ]
