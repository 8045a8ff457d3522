-- ===== src/Runtime/Text/Prefix.antt =====
-- A common prefix that ends with a slash changes neither the order of texts nor what they end
-- with.
use Prim.Native.Char.{Char, code}
use Prim.Native.String.append.{nil, cons}
use torr_bsds.Base.{
  ℕ, String, ◌<>◌, ◌≡◌, refl, sym, ap, ◌∙◌, Bool, true, false, inl, inr, ◌||◌, str_eq, eq_iff,
  Bool-cases, ◌==◌, arith,
}
use torr_bsds.Runtime.Text.{ends_with, le_text}

pub nil_append : (t : String) → "" <> t ≡ t
nil_append t = λ i. nil t i

pub cons-append : (c : Char) (s t : String) → String.◌∷◌ c s <> t ≡ String.◌∷◌ c (s <> t)
cons-append c s t = λ i. cons c s t i

unfoldable pub has_slash : String → Bool
has_slash String.[] = false
has_slash (String.◌∷◌ c s) = (code c == 47) || has_slash s

has_slash-append : (s t : String) → has_slash t ≡ true → has_slash (s <> t) ≡ true
unfolding has_slash
has_slash-append String.[] t h = rw (nil_append t) h
has_slash-append (String.◌∷◌ c s) t h =
    ap has_slash (cons-append c s t) ∙ or_true (code c == 47) (has_slash-append s t h)
  where
    or_true : (b : Bool) {x : Bool} → x ≡ true → (b || x) ≡ true
    or_true true e = refl
    or_true false e = e

-- A text with a slash is no text without one.
pub str_eq-slash : (s t : String) → has_slash s ≡ true → has_slash t ≡ false → str_eq s t ≡ false
str_eq-slash s t h k = elim (Bool-cases (str_eq s t)) [
  | inl e ↦ absurd (let same : has_slash s ≡ has_slash t = ap has_slash ((eq_iff s t).0 e) in cc)
  | inr e ↦ e
]

-- The first text that is looked at has a slash, so it is not the suffix.
ends_with-skip :
    (c : Char) (s suffix : String)
    → has_slash suffix ≡ false
    → has_slash (String.◌∷◌ c s) ≡ true
    → ends_with (String.◌∷◌ c s) suffix ≡ ends_with s suffix
unfolding ends_with
ends_with-skip c s suffix h k = rw (str_eq-slash (String.◌∷◌ c s) suffix k h) refl

slash_first : (t : String) → has_slash ("/" <> t) ≡ true
unfolding has_slash
slash_first t = ap has_slash (cons-append _ "" t)

pub slash_cons : (t : String) → "/" <> t ≡ String.◌∷◌ "/" t
slash_cons t = cons-append "/" "" t ∙ ap (String.◌∷◌ "/") (nil_append t)

pub ends_with-prefix :
    (s t suffix : String)
    → has_slash suffix ≡ false
    → ends_with (s <> ("/" <> t)) suffix ≡ ends_with t suffix
ends_with-prefix String.[] t suffix h =
    ap (λ u. ends_with u suffix) (nil_append ("/" <> t) ∙ slash_cons t)
    ∙ ends_with-skip "/" t suffix h (ap has_slash (sym (slash_cons t)) ∙ slash_first t)
ends_with-prefix (String.◌∷◌ c s) t suffix h =
    ap (λ u. ends_with u suffix) (cons-append c s ("/" <> t))
    ∙ ends_with-skip c (s <> ("/" <> t)) suffix h (
        ap has_slash (sym (cons-append c s ("/" <> t)))
        ∙ has_slash-append (String.◌∷◌ c s) ("/" <> t) (slash_first t))
    ∙ ends_with-prefix s t suffix h

same_code : (n : ℕ) → (n == n) ≡ true
same_code n = ground arith

pub le_text-prefix : (p s t : String) → le_text (p <> s) (p <> t) ≡ le_text s t
unfolding le_text
le_text-prefix String.[] s t = rw (nil_append s, nil_append t) refl
le_text-prefix (String.◌∷◌ c p) s t =
    rw (cons-append c p s, cons-append c p t, same_code (code c)) (le_text-prefix p s t)
