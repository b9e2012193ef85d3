-- ===== src/Base/Tests.antt =====
-- Boolean tests on numbers, an interface for equality tests, and the conditional.
use Prim.Native.Nat.{ℕ, ◌≤◌, ◌<◌, compare, Ordering}
use Prim.Native.String.{String}
use mathlib.Core.Path.{◌≡◌, refl}
use mathlib.Core.Logic.{◌↔◌, ◌⊎◌, inl, inr}
use mathlib.Core.Bool.{Bool, true, false, ◌&&◌}
use mathlib.Core.Option.{Option, none, some}
use native.Mathlib.Omega.{arith}
use text.Mathlib.Text.{◌==◌ as text_eq}
use text.Mathlib.TextEquality.{eq_iff}

abbrev pub ltb : ℕ → ℕ → Bool
ltb a b = elim (compare a b) [ Ordering.lt ↦ true | _ ↦ false ]

abbrev pub leb : ℕ → ℕ → Bool
leb a b = elim (compare a b) [ Ordering.gt ↦ false | _ ↦ true ]

abbrev pub nat_eqb : ℕ → ℕ → Bool
nat_eqb a b = elim (compare a b) [ Ordering.eq ↦ true | _ ↦ false ]

infix 1 if◌then◌else◌
abbrev pub if◌then◌else◌ {ℓ} : {A : Type ℓ} → Bool → A → A → A
if true then x else y = x
if false then x else y = y

pub ltb→lt : (a b : ℕ) → ltb a b ≡ true → a < b
ltb→lt a b h = ground arith

pub lt→ltb : (a b : ℕ) → a < b → ltb a b ≡ true
lt→ltb a b h = ground arith

pub leb→le : (a b : ℕ) → leb a b ≡ true → a ≤ b
leb→le a b h = ground arith

pub nat_eqb_iff : (a b : ℕ) → (nat_eqb a b ≡ true) ↔ (a ≡ b)
nat_eqb_iff a b = ground arith

-- A type with Rust's `PartialEq`, as a lawful test.
pub record PartialEq {ℓ} (T : Type ℓ) : Type ℓ where
  pub same : T → T → Bool
  pub same_iff : (x y : T) → (same x y ≡ true) ↔ (x ≡ y)

infix 50 ◌==◌
abbrev pub ◌==◌ {ℓ} : {T : Type ℓ} ⦃tested : PartialEq T⦄ → T → T → Bool
◌==◌ ⦃tested⦄ = tested.same

-- Equality of texts as an equivalence, at the pair of texts that a proof compares.
pub str_iff : (s t : String) → (text_eq s t ≡ true) ↔ (s ≡ t)
str_iff = eq_iff

instance abbrev pub string_eq : PartialEq String
string_eq = record { same = text_eq; same_iff = eq_iff }

instance abbrev pub nat_eq : PartialEq ℕ
nat_eq = record { same = nat_eqb; same_iff = nat_eqb_iff }

module _ {ℓ κ} {A : Type ℓ} {B : Type κ} ⦃a : PartialEq A⦄ ⦃b : PartialEq B⦄ where
  abbrev pub same_pair : A × B → A × B → Bool
  same_pair (x, y) (z, w) = a.same x z && b.same y w

  pub same_pair_iff : (p q : A × B) → (same_pair p q ≡ true) ↔ (p ≡ q)
  same_pair_iff (x, y) (z, w) = ground (arith, a.same_iff x z, b.same_iff y w)

  instance abbrev pub pair_eq : PartialEq (A × B)
  pair_eq = record { same = same_pair; same_iff = same_pair_iff }

module _ {ℓ κ μ} {A : Type ℓ} {B : Type κ} {C : Type μ} ⦃a : PartialEq A⦄ ⦃b : PartialEq B⦄
    ⦃c : PartialEq C⦄ where
  abbrev pub same_triple : A × B × C → A × B × C → Bool
  same_triple (x, y, z) (u, v, w) = a.same x u && b.same y v && c.same z w

  pub same_triple_iff : (p q : A × B × C) → (same_triple p q ≡ true) ↔ (p ≡ q)
  same_triple_iff (x, y, z) (u, v, w) =
      ground (arith, a.same_iff x u, b.same_iff y v, c.same_iff z w)

  instance abbrev pub triple_eq : PartialEq (A × B × C)
  triple_eq = record { same = same_triple; same_iff = same_triple_iff }

pub key_iff : (p q : String × String) → ((p == q) ≡ true) ↔ (p ≡ q)
key_iff p q = pair_eq.same_iff p q

pub triple_iff : (p q : String × String × String) → ((p == q) ≡ true) ↔ (p ≡ q)
triple_iff p q = triple_eq.same_iff p q

pub Bool-cases : (b : Bool) → (b ≡ true) ⊎ (b ≡ false)
Bool-cases true = inl refl
Bool-cases false = inr refl

abbrev pub is_some {ℓ} : {A : Type ℓ} → Option A → Bool
is_some none = false
is_some (some a) = true

pub Option-cases {ℓ} : {A : Type ℓ} (o : Option A) → (o ≡ none) ⊎ ((a : A) × (o ≡ some a))
Option-cases none = inl refl
Option-cases (some a) = inr (a, refl)
