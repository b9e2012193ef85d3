-- ===== src/Base/Comparing.antt =====
-- The order of texts, which Rust has by code points.
use Prim.Native.Nat.compare as compare_ℕ
use Prim.Native.Nat.{ℕ, zero, suc, Ordering, compare as compare_ℕ}
use Prim.Native.Char.{code}
use Prim.Native.String.compare
use Prim.Native.String.{String, compare, then}
use mathlib.Core.Path.{◌≡◌, refl, ap, sym, ◌∙◌}
use mathlib.Core.Bool.{Bool, true, false}

-- `s <= t`
abbrev pub not_later : String → String → Bool
not_later s t = elim (compare s t) [ Ordering.gt ↦ false | _ ↦ true ]

flip : Ordering → Ordering
flip Ordering.lt = Ordering.gt
flip Ordering.eq = Ordering.eq
flip Ordering.gt = Ordering.lt

flip-then : (o r : Ordering) → then (flip o) (flip r) ≡ flip (then o r)
unfolding flip
flip-then Ordering.lt r = refl
flip-then Ordering.eq r = refl
flip-then Ordering.gt r = refl

number_flip : (m n : ℕ) → compare_ℕ n m ≡ flip (compare_ℕ m n)
unfolding flip
number_flip zero zero = refl
number_flip zero (suc n) = compare_ℕ.suc-zero n ∙ sym (ap flip (compare_ℕ.zero-suc n))
number_flip (suc m) zero = compare_ℕ.zero-suc m ∙ sym (ap flip (compare_ℕ.suc-zero m))
number_flip (suc m) (suc n) =
    compare_ℕ.suc-suc n m ∙ number_flip m n ∙ sym (ap flip (compare_ℕ.suc-suc m n))

compare-flip : (s t : String) → compare t s ≡ flip (compare s t)
unfolding flip
compare-flip String.[] String.[] = compare.nil-nil ∙ sym (ap flip compare.nil-nil)
compare-flip String.[] (String.◌∷◌ d t) =
    compare.cons-nil d t ∙ sym (ap flip (compare.nil-cons d t))
compare-flip (String.◌∷◌ c s) String.[] =
    compare.nil-cons c s ∙ sym (ap flip (compare.cons-nil c s))
compare-flip (String.◌∷◌ c s) (String.◌∷◌ d t) =
    compare.cons-cons d c t s
    ∙ rw (number_flip (code c) (code d), compare-flip s t)
        (flip-then (compare_ℕ (code c) (code d)) (compare s t))
    ∙ sym (ap flip (compare.cons-cons c d s t))

not_later_of_flip :
    (o r : Ordering)
    → r ≡ flip o
    → elim o as (λ x. Bool) [ Ordering.gt ↦ false | _ ↦ true ] ≡ false
    → elim r as (λ x. Bool) [ Ordering.gt ↦ false | _ ↦ true ] ≡ true
unfolding flip
not_later_of_flip Ordering.lt r e h = cc
not_later_of_flip Ordering.eq r e h = cc
not_later_of_flip Ordering.gt r e h = rw e refl

pub not_later_flip : (s t : String) → not_later s t ≡ false → not_later t s ≡ true
not_later_flip s t h = not_later_of_flip (compare s t) (compare t s) (compare-flip s t) h
