-- ===== src/Kinds.antt =====
-- The enumerations of domain/memory.rs with the derived equality tests.
use nextral.Base.{ℕ, PartialEq, nat_eqb, true, ◌≡◌, ◌↔◌, arith}

pub data ContentType : Type 0 where
  decision preference goal fact task event note commitment pattern_found : ContentType

pub data MemoryType : Type 0 where
  working session episodic semantic relational procedural prospective : MemoryType

pub data SourceType : Type 0 where
  realtime fast_lane deep_lane imported manual : SourceType

pub data PrivacyLevel : Type 0 where
  private sensitive shared restricted : PrivacyLevel

pub data MemoryStatus : Type 0 where
  active soft_deleted redacted archived : MemoryStatus

-- The discriminants, in the order of declaration.
abbrev pub content_type_index : ContentType → ℕ
content_type_index decision = 0
content_type_index preference = 1
content_type_index goal = 2
content_type_index fact = 3
content_type_index task = 4
content_type_index event = 5
content_type_index note = 6
content_type_index commitment = 7
content_type_index pattern_found = 8

abbrev pub memory_type_index : MemoryType → ℕ
memory_type_index working = 0
memory_type_index session = 1
memory_type_index episodic = 2
memory_type_index semantic = 3
memory_type_index relational = 4
memory_type_index procedural = 5
memory_type_index prospective = 6

abbrev pub source_type_index : SourceType → ℕ
source_type_index realtime = 0
source_type_index fast_lane = 1
source_type_index deep_lane = 2
source_type_index imported = 3
source_type_index manual = 4

abbrev pub privacy_index : PrivacyLevel → ℕ
privacy_index private = 0
privacy_index sensitive = 1
privacy_index shared = 2
privacy_index restricted = 3

abbrev pub status_index : MemoryStatus → ℕ
status_index active = 0
status_index soft_deleted = 1
status_index redacted = 2
status_index archived = 3

pub content_type_iff :
    (a b : ContentType) → (nat_eqb (content_type_index a) (content_type_index b) ≡ true) ↔ (a ≡ b)
content_type_iff a b = ground arith

pub memory_type_iff :
    (a b : MemoryType) → (nat_eqb (memory_type_index a) (memory_type_index b) ≡ true) ↔ (a ≡ b)
memory_type_iff a b = ground arith

pub source_type_iff :
    (a b : SourceType) → (nat_eqb (source_type_index a) (source_type_index b) ≡ true) ↔ (a ≡ b)
source_type_iff a b = ground arith

pub privacy_iff :
    (a b : PrivacyLevel) → (nat_eqb (privacy_index a) (privacy_index b) ≡ true) ↔ (a ≡ b)
privacy_iff a b = ground arith

pub status_iff : (a b : MemoryStatus) → (nat_eqb (status_index a) (status_index b) ≡ true) ↔ (a ≡ b)
status_iff a b = ground arith

instance abbrev pub content_type_eq : PartialEq ContentType
content_type_eq = record {
  same = λ a b. nat_eqb (content_type_index a) (content_type_index b);
  same_iff = content_type_iff;
}

instance abbrev pub memory_type_eq : PartialEq MemoryType
memory_type_eq = record {
  same = λ a b. nat_eqb (memory_type_index a) (memory_type_index b);
  same_iff = memory_type_iff;
}

instance abbrev pub source_type_eq : PartialEq SourceType
source_type_eq = record {
  same = λ a b. nat_eqb (source_type_index a) (source_type_index b);
  same_iff = source_type_iff;
}

instance abbrev pub privacy_eq : PartialEq PrivacyLevel
privacy_eq = record {
  same = λ a b. nat_eqb (privacy_index a) (privacy_index b);
  same_iff = privacy_iff;
}

instance abbrev pub status_eq : PartialEq MemoryStatus
status_eq = record {
  same = λ a b. nat_eqb (status_index a) (status_index b);
  same_iff = status_iff;
}
