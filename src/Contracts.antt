-- ===== src/Contracts.antt =====
-- contracts/mod.rs: the errors of the runtime and its result type, with chains of fallible steps.
use nextral.Base.{
  not, ◌≡◌, refl, ◌⊎◌, inl, inr, Bool, true, false, String, text_append, Option, none, some,
}

pub data CoreError : Type 0 where
  invalid_input not_found conflict io serialization resource_exhausted : String → CoreError
  deadline_exceeded cancelled lease_lost index_not_ready : String → CoreError

-- `Display`
abbrev pub error_text : CoreError → String
error_text (invalid_input why) = text_append "invalid input: " why
error_text (not_found why) = text_append "not found: " why
error_text (conflict why) = text_append "conflict: " why
error_text (io why) = text_append "io error: " why
error_text (serialization why) = text_append "serialization error: " why
error_text (resource_exhausted why) = text_append "resource exhausted: " why
error_text (deadline_exceeded why) = text_append "deadline exceeded: " why
error_text (cancelled why) = text_append "cancelled: " why
error_text (lease_lost why) = text_append "lease lost: " why
error_text (index_not_ready why) = text_append "index not ready: " why

pub data CoreResult {ℓ} (T : Type ℓ) : Type ℓ where
  err : CoreError → CoreResult T
  ok : T → CoreResult T

-- The operator `?`: an error ends the chain.
infixl 5 ◌>>=◌ ◌>>◌
abbrev pub ◌>>=◌ {ℓ κ} :
    {T : Type ℓ} {U : Type κ} → CoreResult T → (T → CoreResult U) → CoreResult U
err failure >>= next = err failure
ok value >>= next = next value

abbrev pub ◌>>◌ {ℓ} : {U : Type ℓ} → CoreResult (Unit {0}) → CoreResult U → CoreResult U
err failure >> rest = err failure
ok done >> rest = rest

-- `if refused { return Err(e) }`
abbrev pub refuse : Bool → CoreError → CoreResult (Unit {0})
refuse true e = err e
refuse false e = ok tt

abbrev pub is_ok {ℓ} : {A : Type ℓ} → CoreResult A → Bool
is_ok (ok a) = true
is_ok (err e) = false

abbrev pub ok_or {ℓ} : {A : Type ℓ} → Option A → CoreError → CoreResult A
ok_or none e = err e
ok_or (some a) e = ok a

pub ok_value : {A : Type 0} {a b : A} → ok a ≡ ok b → a ≡ b
ok_value h = cc

-- A chain that succeeds had its first call succeed, with the value that the rest went on from.
pub chain_value {ℓ κ} :
    {T : Type ℓ} {U : Type κ} {result : U} (first : CoreResult T) (next : T → CoreResult U)
    → (first >>= next) ≡ ok result
    → (value : T) × (next value ≡ ok result) × (first ≡ ok value)
chain_value (err failure) next went = cc
chain_value (ok value) next went = (value, went, refl)

-- A sequence that succeeds had both of its parts succeed, and a refusal that passes was not due.
pub both_ok {ℓ} :
    {U : Type ℓ} {result : U} (first : CoreResult (Unit {0})) {rest : CoreResult U}
    → (first >> rest) ≡ ok result
    → (first ≡ ok tt) × (rest ≡ ok result)
both_ok (err failure) went = cc
both_ok (ok done) went = (refl, went)

pub refuse-passed : (refused : Bool) (e : CoreError) → refuse refused e ≡ ok tt → refused ≡ false
refuse-passed true e h = cc
refuse-passed false e h = refl

pub unless_refused :
    (required : Bool) (e : CoreError) → refuse (not required) e ≡ ok tt → required ≡ true
unless_refused true e h = refl
unless_refused false e h = cc

-- Chains that go on in the same way have the same outcome.
pub same_rest {ℓ κ} :
    {T : Type ℓ} {U : Type κ} (first : CoreResult T) (next other : T → CoreResult U)
    → ((value : T) → next value ≡ other value)
    → (first >>= next) ≡ (first >>= other)
same_rest (err failure) next other agree = refl
same_rest (ok value) next other agree = agree value

pub CoreResult-cases {ℓ} :
    {T : Type ℓ} (outcome : CoreResult T)
    → ((value : T) × (outcome ≡ ok value)) ⊎ ((failure : CoreError) × (outcome ≡ err failure))
CoreResult-cases (ok value) = inl (value, refl)
CoreResult-cases (err failure) = inr (failure, refl)
