-- ===== src/Actions.antt =====
-- Calls on `&mut self`: actions on a state that may fail. One that fails keeps what it did to the state.
use nextral.Base.{◌≡◌, refl, arith, ap, List, [], ◌∷◌}
use nextral.Contracts.{CoreResult, ok, err}

abbrev pub Action : Type 0 → Type 0 → Type 0
Action S A = S → S × CoreResult A

infixl 5 ◌>>=◌ ◌>>◌
abbrev pub ◌>>=◌ : {S A B : Type 0} → Action S A → (A → Action S B) → Action S B
(first >>= next) s =
    let (t, outcome) = first s in
    elim outcome [ err failure ↦ (t, err failure) | ok value ↦ next value t ]

abbrev pub ◌>>◌ : {S B : Type 0} → Action S (Unit {0}) → Action S B → Action S B
first >> next = first >>= λ done. next

-- A computation that only reads the state.
abbrev pub reads : {S A : Type 0} → (S → CoreResult A) → Action S A
reads question s = (s, question s)

abbrev pub lift : {S A : Type 0} → CoreResult A → Action S A
lift outcome s = (s, outcome)

-- The outcome as a value, also where it is an error.
abbrev pub attempt : {S A : Type 0} → Action S A → Action S (CoreResult A)
attempt action s = let (t, outcome) = action s in (t, ok outcome)

-- `for item in items { step(item)?; }`
unfoldable pub for_each : {S A : Type 0} → (A → Action S (Unit {0})) → List A → Action S (Unit {0})
for_each step [] s = (s, ok tt)
for_each step (item ∷ rest) s =
    let (t, outcome) = step item s in
    let later = for_each step rest t in
    elim outcome [ err failure ↦ (t, err failure) | ok done ↦ later ]

module _ {S A : Type 0} (step : A → Action S (Unit {0})) (item : A) (rest : List A) where
  pub for_each-ok :
      (s t : S) → step item s ≡ (t, ok tt) → for_each step (item ∷ rest) s ≡ for_each step rest t
  unfolding for_each
  for_each-ok s t h =
      ap
        (λ (did : S × CoreResult (Unit {0})). elim did.1 as (λ x. S × CoreResult (Unit {0})) [
          | err failure ↦ (did.0, err failure)
          | ok done ↦ for_each step rest did.0
        ])
        h

-- An action that succeeds had its first part succeed, in some state.
value_of :
    {S A B : Type 0} {t : S} {result : B} (first : S × CoreResult A) (next : A → Action S B)
    → (let (u, outcome) = first in
        elim outcome as (λ o. S × CoreResult B) [
          | err failure ↦ (u, err failure)
          | ok value ↦ next value u
        ])
      ≡ (t, ok result)
    → (value : A) × (u : S) × (next value u ≡ (t, ok result)) × (first ≡ (u, ok value))
value_of (u, ok value) next went = (value, u, went, refl)
value_of (u, err failure) next went = absurd (ground (arith, went))

pub action_value :
    {S A B : Type 0} {t : S} {result : B} (first : Action S A) (next : A → Action S B) (s : S)
    → (first >>= next) s ≡ (t, ok result)
    → (value : A) × (u : S) × (next value u ≡ (t, ok result)) × (first s ≡ (u, ok value))
action_value first next s went = value_of (first s) next went

-- A sequence that succeeds had its first part succeed.
pub action_rest :
    {S B : Type 0} {t : S} {result : B} (first : Action S (Unit {0})) (rest : Action S B) (s : S)
    → (first >> rest) s ≡ (t, ok result)
    → (u : S) × (rest u ≡ (t, ok result)) × (first s ≡ (u, ok tt))
action_rest first rest s went =
    let (done, u, later, began) = action_value first (λ done. rest) s went in (u, later, began)

-- What the first part leaves true and the rest keeps holds at the end, also where the first part fails.
module _ {S B : Type 0} (P : S → Type 0) (rest : Action S B) where
  end_of :
      (did : S × CoreResult (Unit {0}))
      → P did.0
      → ((u : S) → P u → P (rest u).0)
      → P
          (elim did.1 as (λ x. S × CoreResult B) [
            | err failure ↦ (did.0, err failure)
            | ok done ↦ rest did.0
          ]).0
  end_of (u, err failure) here kept = here
  end_of (u, ok done) here kept = kept u here

  pub action_end :
      (first : Action S (Unit {0})) (s : S)
      → P (first s).0
      → ((u : S) → P u → P (rest u).0)
      → P ((first >> rest) s).0
  action_end first s here kept = end_of (first s) here kept

-- A loop that succeeds had its first step succeed, and the rest from there.
module _ {S A : Type 0} (step : A → Action S (Unit {0})) (item : A) (rest : List A) where
  first_step :
      {t : S} (did : S × CoreResult (Unit {0}))
      → (elim did.1 as (λ x. S × CoreResult (Unit {0})) [
        | err failure ↦ (did.0, err failure)
        | ok done ↦ for_each step rest did.0
      ])
        ≡ (t, ok tt)
      → (u : S) × (did ≡ (u, ok tt)) × (for_each step rest u ≡ (t, ok tt))
  first_step (u, ok done) went = (u, refl, went)
  first_step (u, err failure) went = absurd (ground (arith, went))

  pub for_each_value :
      (s t : S)
      → for_each step (item ∷ rest) s ≡ (t, ok tt)
      → (u : S) × (step item s ≡ (u, ok tt)) × (for_each step rest u ≡ (t, ok tt))
  unfolding for_each
  for_each_value s t went = first_step (step item s) went
