-- ===== src/Runtime/Text/Suffix.antt =====
-- What a text that was put together ends with.
use Prim.Native.Char.{Char, code}
use text.Mathlib.TextPositions.{eq_refl}
use torr_bsds.Base.{
  ℕ, String, ◌<>◌, ◌≡◌, ◌≢◌, refl, sym, ap, ◌∙◌, Bool, true, false, inl, inr, ◌||◌, str_eq, eq_iff,
  Bool-cases,
}
use torr_bsds.Runtime.Text.{ends_with}
use torr_bsds.Runtime.Text.Prefix.{nil_append, cons-append}

or_right : (b : Bool) {x : Bool} → x ≡ true → (b || x) ≡ true
or_right true e = refl
or_right false e = e

ends_with_self : (s : String) → ends_with s s ≡ true
unfolding ends_with
ends_with_self String.[] = refl
ends_with_self (String.◌∷◌ c s) = rw (eq_refl (String.◌∷◌ c s)) refl

pub ends_with-append : (s t : String) → ends_with (s <> t) t ≡ true
unfolding ends_with
ends_with-append String.[] t = rw (nil_append t) (ends_with_self t)
ends_with-append (String.◌∷◌ c s) t =
    rw (cons-append c s t) (or_right (str_eq (String.◌∷◌ c (s <> t)) t) (ends_with-append s t))

-- The code of the last character, and 0 for no character.
unfoldable pub last_code : String → ℕ
last_code String.[] = 0
last_code (String.◌∷◌ c String.[]) = code c
last_code (String.◌∷◌ c (String.◌∷◌ d s)) = last_code (String.◌∷◌ d s)

last_code-append :
    (s t : String) (d : Char) → last_code (s <> String.◌∷◌ d t) ≡ last_code (String.◌∷◌ d t)
unfolding last_code
last_code-append String.[] t d = rw (nil_append (String.◌∷◌ d t)) refl
last_code-append (String.◌∷◌ c String.[]) t d =
    rw (cons-append c "" (String.◌∷◌ d t), nil_append (String.◌∷◌ d t)) refl
last_code-append (String.◌∷◌ c (String.◌∷◌ e s)) t d =
    ap last_code (
      cons-append c (String.◌∷◌ e s) (String.◌∷◌ d t)
      ∙ ap (String.◌∷◌ c) (cons-append e s (String.◌∷◌ d t)))
    ∙ ap last_code (sym (cons-append e s (String.◌∷◌ d t)))
    ∙ last_code-append (String.◌∷◌ e s) t d

abbrev is_empty : String → Bool
is_empty String.[] = true
is_empty (String.◌∷◌ d t) = false

empty_ne_cons : (d : Char) (t : String) → str_eq "" (String.◌∷◌ d t) ≢ true
empty_ne_cons d t h =
    let e : is_empty "" ≡ is_empty (String.◌∷◌ d t) =
      ap is_empty ((eq_iff "" (String.◌∷◌ d t)).0 h) in
    cc

last_code-ends_with :
    (s t : String) (d : Char)
    → ends_with s (String.◌∷◌ d t) ≡ true
    → last_code s ≡ last_code (String.◌∷◌ d t)
unfolding ends_with last_code
last_code-ends_with String.[] t d h = ap last_code ((eq_iff "" (String.◌∷◌ d t)).0 h)
last_code-ends_with (String.◌∷◌ c String.[]) t d h =
    elim (Bool-cases (str_eq (String.◌∷◌ c "") (String.◌∷◌ d t))) [
      | inl e ↦ ap last_code ((eq_iff (String.◌∷◌ c "") (String.◌∷◌ d t)).0 e)
      | inr e ↦ absurd (empty_ne_cons d t (rw e at h))
    ]
last_code-ends_with (String.◌∷◌ c (String.◌∷◌ e s)) t d h =
    elim (Bool-cases (str_eq (String.◌∷◌ c (String.◌∷◌ e s)) (String.◌∷◌ d t))) [
      | inl same ↦ ap last_code ((eq_iff (String.◌∷◌ c (String.◌∷◌ e s)) (String.◌∷◌ d t)).0 same)
      | inr other ↦ last_code-ends_with (String.◌∷◌ e s) t d (rw other at h)
    ]

-- A text does not end with another of which the last character differs from its own.
pub ends_with-other :
    (s t suffix : String) (d e : Char)
    → last_code (String.◌∷◌ d t) ≢ last_code (String.◌∷◌ e suffix)
    → ends_with (s <> String.◌∷◌ d t) (String.◌∷◌ e suffix) ≡ false
ends_with-other s t suffix d e differ =
    elim (Bool-cases (ends_with (s <> String.◌∷◌ d t) (String.◌∷◌ e suffix))) [
      | inr other ↦ other
      | inl same ↦ absurd (
          differ (
            sym (last_code-append s t d) ∙ last_code-ends_with (s <> String.◌∷◌ d t) suffix e same))
    ]
