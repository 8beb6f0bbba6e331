-- ===== src/Decimal/RoundTrip.antt =====
-- `Decimal.from` reads what `Decimal.toString` writes (shared-kernel/decimal.ts).
use text.Mathlib.TextLemmas.{cons-append, nil-append}
use mathlib.Core.List.{append-nil}
use exchanger.Prelude.{
  ℕ, zero, suc, ◌+◌, ◌-◌, ◌≡◌, ◌<◌, refl, ap, ◌∙◌, ◌⊎◌, inl, inr, String, Bool, true, false, List,
  [], ◌∷◌, ◌++◌, arith, length, concat, show, show_from, ◌==◌, ==_iff, Bool-cases, if◌then◌else◌,
  take, drop, replicate, take-append-drop, length-append, length-drop, length-take,
  length-replicate, some,
}
use exchanger.Prelude.Int.{
  ℤ, pos, negsuc, pos_part, neg_part, neg, eqb_ℤ, is_negative as is_negative_ℤ,
}
use exchanger.Decimal.{Decimal, normalize, is_zero}
use exchanger.Decimal.Canonical.{IsCanonical, is_canonical}
use exchanger.Decimal.Text.{with_point, to_string}
use exchanger.Decimal.Parse.{digits_value, is_integer_part, fraction_of, decimal_of, from, sign_of}
use exchanger.Decimal.Digits.{
  prepend, AreDigits, digits_from, show_from-prepend, digits_from-AreDigits,
  digits_value-digits_from, Leads, digits_from-Leads, Stops, span_digits-prepend, digit_text-append,
  digit_char-not_sign,
}
use exchanger.Decimal.Written.{
  text_length-prepend, take_text-prepend, drop_text-prepend, zeros-prepend, concat-prepend,
  AreDigits-replicate, digits_value-replicate, AreDigits-take, AreDigits-drop,
}

-- A sign before digits.
sign_of-prepend :
    (I : List ℕ) (rest : String)
    → AreDigits I
    → 0 < length I
    → sign_of (prepend I rest) ≡ (false, prepend I rest)
sign_of-prepend [] rest h k = absurd (omega arith)
sign_of-prepend (d ∷ ds) rest h k =
    let e = digit_text-append d (prepend ds rest) h.0 in rw e (rw (digit_char-not_sign d h.0) refl)

from-signed :
    (negative : Bool) (I : List ℕ) (rest : String)
    → AreDigits I
    → 0 < length I
    → Stops rest
    → from (concat (if negative then "-" else "") (prepend I rest))
      ≡ decimal_of negative I (fraction_of rest)
unfolding from
from-signed true I rest h k s =
    let e : concat "-" (prepend I rest) ≡ String.◌∷◌ "-" (prepend I rest) =
      cons-append "-" "" (prepend I rest) ∙ ap (String.◌∷◌ "-") (nil-append (prepend I rest)) in
    rw (e, span_digits-prepend I rest h s) refl
from-signed false I rest h k s =
    rw (nil-append (prepend I rest), sign_of-prepend I rest h k, span_digits-prepend I rest h s)
      refl

fraction_of-point :
    (F : List ℕ) → AreDigits F → 0 < length F → fraction_of (String.◌∷◌ "." (prepend F "")) ≡ some F
unfolding fraction_of
fraction_of-point [] h k = absurd (omega arith)
fraction_of-point (d ∷ ds) h k = rw (span_digits-prepend (d ∷ ds) "" h tt) refl

is_integer_part-take : (k : ℕ) (ds : List ℕ) → Leads ds → 0 < k → is_integer_part (take k ds) ≡ true
unfolding is_integer_part
is_integer_part-take zero ds h p = absurd (omega arith)
is_integer_part-take (suc k) [] h p = absurd h
is_integer_part-take (suc zero) (d ∷ ds) h p = refl
is_integer_part-take (suc (suc k)) (d ∷ []) h p = refl
is_integer_part-take (suc (suc k)) (d ∷ e ∷ ds) h p = ground arith

signed_parts :
    (c : ℤ)
    → (if is_negative_ℤ c then neg (pos_part c + neg_part c) else pos (pos_part c + neg_part c)) ≡ c
signed_parts (pos n) = ground arith
signed_parts (negsuc n) = ground arith

normalize_canonical :
    (c : ℤ) (s : ℕ)
    → IsCanonical (record { coefficient = c; scale = s })
    → normalize c s ≡ record { coefficient = c; scale = s }
unfolding normalize is_canonical
normalize_canonical c zero h = refl
normalize_canonical c (suc s) h = ground arith

decimal_of-digits :
    (d : Decimal) (I F : List ℕ)
    → IsCanonical d
    → is_integer_part I ≡ true
    → digits_value 0 (I ++ F) ≡ pos_part d.coefficient + neg_part d.coefficient
    → length F ≡ d.scale
    → decimal_of (is_negative_ℤ d.coefficient) I (some F) ≡ some d
unfolding decimal_of
decimal_of-digits d I F h first whole long =
    rw (first, whole, long, signed_parts d.coefficient)
      (ap some (normalize_canonical d.coefficient d.scale h))

-- The digits of a magnitude, padded to more than the scale.
padded : ℕ → List ℕ → List ℕ
padded scale ds = replicate (scale + 1 - length ds) 0 ++ ds

ℕ-cases : (n : ℕ) → (n ≡ 0) ⊎ ((k : ℕ) × (n ≡ suc k))
ℕ-cases zero = inl refl
ℕ-cases (suc k) = inr (k, refl)

padded-first :
    (scale : ℕ) (ds : List ℕ)
    → Leads ds
    → is_integer_part (take (length (padded scale ds) - scale) (padded scale ds)) ≡ true
unfolding padded is_integer_part
padded-first scale ds h = elim (ℕ-cases (scale + 1 - length ds)) [
  | inl none ↦ rw none (is_integer_part-take (length ds - scale) ds h (omega (arith, none)))
  | inr (k, more) ↦
      let one : length (replicate (scale + 1 - length ds) 0 ++ ds) - scale ≡ suc zero = omega (
        arith,
        more,
        length-append (replicate (scale + 1 - length ds) 0) ds,
        length-replicate {A = ℕ} (scale + 1 - length ds) 0,
      ) in
      rw one (rw more refl)
]

with_point-prepend :
    (scale : ℕ) (ds : List ℕ)
    → AreDigits ds
    → let P = padded scale ds in
      let k = length P - scale in
      with_point scale (prepend ds "") ≡ prepend (take k P) (String.◌∷◌ "." (prepend (drop k P) ""))
unfolding with_point padded
with_point-prepend scale ds h =
    let P = padded scale ds in
    let digits = AreDigits-replicate (scale + 1 - length ds) ds h in
    let e : concat "." (prepend (drop (length P - scale) P) "")
        ≡ String.◌∷◌ "." (prepend (drop (length P - scale) P) "") =
      cons-append "." "" _ ∙ ap (String.◌∷◌ ".") (nil-append _) in
    rw
      (
        text_length-prepend ds h,
        zeros-prepend (scale + 1 - length ds) ds,
        text_length-prepend P digits,
        take_text-prepend (length P - scale) P digits,
        drop_text-prepend (length P - scale) P digits,
        e,
      )
      (concat-prepend (take (length P - scale) P) _)

canonical_zero :
    (c : ℤ) (s : ℕ)
    → IsCanonical (record { coefficient = c; scale = s })
    → eqb_ℤ c (pos 0) ≡ true
    → normalize (pos 0) 0 ≡ record { coefficient = c; scale = s }
unfolding normalize is_canonical
canonical_zero (pos zero) zero h z = refl
canonical_zero (pos zero) (suc s) h z = ground arith
canonical_zero (pos (suc n)) s h z = ground arith
canonical_zero (negsuc n) s h z = cc

from_zero : (d : Decimal) → IsCanonical d → is_zero d ≡ true → from "0" ≡ some d
unfolding from is_zero
from_zero d h z = ap some (canonical_zero d.coefficient d.scale h z)

magnitude : (d : Decimal) → is_zero d ≡ false → 0 < pos_part d.coefficient + neg_part d.coefficient
unfolding is_zero
magnitude d h = ground arith

length-Leads : (ds : List ℕ) → Leads ds → 0 < length ds
length-Leads [] h = absurd h
length-Leads (d ∷ ds) h = omega arith

is_integer_part-Leads : (ds : List ℕ) → Leads ds → is_integer_part ds ≡ true
unfolding is_integer_part
is_integer_part-Leads [] h = absurd h
is_integer_part-Leads (d ∷ []) h = refl
is_integer_part-Leads (d ∷ e ∷ ds) h = ground arith

length-padded : (scale : ℕ) (ds : List ℕ) → scale < length (padded scale ds)
unfolding padded
length-padded scale ds = omega (
  arith,
  length-append (replicate (scale + 1 - length ds) 0) ds,
  length-replicate {A = ℕ} (scale + 1 - length ds) 0,
)

from-written :
    (d : Decimal)
    → IsCanonical d
    → is_zero d ≡ false
    → let digits = show (pos_part d.coefficient + neg_part d.coefficient) in
      from (
        concat
          (if is_negative_ℤ d.coefficient then "-" else "")
          (if d.scale == 0 then digits else with_point d.scale digits))
      ≡ some d
unfolding show
from-written d h other =
    let n = pos_part d.coefficient + neg_part d.coefficient in
    let positive : 0 < n = magnitude d other in
    let ds = digits_from (suc n) n [] in
    let written : show_from (suc n) n "" ≡ prepend ds "" = show_from-prepend (suc n) n [] "" in
    let known = digits_from-AreDigits (suc n) n [] tt in
    let leads = digits_from-Leads (suc n) n [] (omega arith) positive in
    let value : digits_value 0 ds ≡ n = digits_value-digits_from (suc n) n [] (omega arith) in
    let negative = is_negative_ℤ d.coefficient in
    let P = padded d.scale ds in
    let k = length P - d.scale in
    let long = length-padded d.scale ds in
    let digits : AreDigits P =
      unfold padded in AreDigits-replicate (d.scale + 1 - length ds) ds known in
    let same : digits_value 0 P ≡ digits_value 0 ds =
      unfold padded in digits_value-replicate (d.scale + 1 - length ds) ds in
    elim (Bool-cases (d.scale == 0)) [
      | inl whole ↦
          rw (whole, written)
            (from-signed negative ds "" known (length-Leads ds leads) tt
              ∙ (unfold fraction_of in
                  decimal_of-digits d ds [] h (is_integer_part-Leads ds leads)
                    (ap (digits_value 0) (append-nil ds) ∙ value)
                    (omega (arith, (==_iff d.scale 0).0 whole))))
      | inr part ↦
          rw (part, written, with_point-prepend d.scale ds known)
            (from-signed negative (take k P) (String.◌∷◌ "." (prepend (drop k P) ""))
                (AreDigits-take k P digits) (omega (arith, length-take k P, long)) refl
              ∙ ap (decimal_of negative (take k P)) (
                  fraction_of-point (drop k P) (AreDigits-drop k P digits)
                    (ground (arith, length-drop k P, long)))
              ∙ decimal_of-digits d (take k P) (drop k P) h (padded-first d.scale ds leads)
                  (ap (digits_value 0) (take-append-drop k P) ∙ same ∙ value)
                  (omega (arith, length-drop k P, long)))
    ]

-- `toString` writes a canonical decimal so that `from` reads it again.
pub from-to_string : (d : Decimal) → IsCanonical d → from (to_string d) ≡ some d
unfolding to_string
from-to_string d h = elim (Bool-cases (is_zero d)) [
  | inl nought ↦ rw nought (from_zero d h nought)
  | inr other ↦ rw other (from-written d h other)
]
