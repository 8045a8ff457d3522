-- ===== src/Runtime/Text/Folder.antt =====
-- Folders: a text without a slash after a common beginning, and then a slash.
use Prim.Native.Char.{Char, code}
use text.Mathlib.Text.{starts_with}
use text.Mathlib.TextEquality.{starts_with_iff, Char-path}
use text.Mathlib.TextLemmas.{append_assoc, append_cancel_left}
use torr_bsds.Base.{
  ℕ, String, ◌<>◌, ◌≡◌, ◌≢◌, refl, sym, ap, ◌∙◌, Bool, false, inl, inr, ◌||◌, ◌==◌, eq_iff,
  Bool-cases, arith,
}
use torr_bsds.Runtime.Text.{is_char, rstrip, rstrip_char}
use torr_bsds.Runtime.Text.Prefix.{nil_append, cons-append, has_slash, slash_cons}

abbrev first_code : String → ℕ
first_code String.[] = 0
first_code (String.◌∷◌ c s) = code c

abbrev tail : String → String
tail String.[] = ""
tail (String.◌∷◌ c s) = s

-- A text without a slash does not go on with one.
slash_first :
    (d : Char) (b x y : String)
    → has_slash (String.◌∷◌ d b) ≡ false
    → "/" <> x ≢ String.◌∷◌ d b <> ("/" <> y)
unfolding has_slash
slash_first d b x y k e =
    let f : first_code (String.◌∷◌ "/" x) ≡ code d =
      ap first_code (sym (slash_cons x) ∙ e ∙ cons-append d b ("/" <> y)) in
    ground arith

or_false : (b : Bool) {c : Bool} → (b || c) ≡ false → c ≡ false
or_false b h = ground arith

-- The first of these texts ends where the slash is.
before_slash :
    (a b x y : String)
    → has_slash a ≡ false
    → has_slash b ≡ false
    → a <> ("/" <> x) ≡ b <> ("/" <> y)
    → a ≡ b
unfolding has_slash
before_slash String.[] String.[] x y h k e = refl
before_slash String.[] (String.◌∷◌ d b) x y h k e =
    absurd (slash_first d b x y k (sym (nil_append ("/" <> x)) ∙ e))
before_slash (String.◌∷◌ c a) String.[] x y h k e =
    absurd (slash_first c a y x h (sym (nil_append ("/" <> y)) ∙ sym e))
before_slash (String.◌∷◌ c a) (String.◌∷◌ d b) x y h k e =
    let conses : String.◌∷◌ c (a <> ("/" <> x)) ≡ String.◌∷◌ d (b <> ("/" <> y)) =
      sym (cons-append c a ("/" <> x)) ∙ e ∙ cons-append d b ("/" <> y) in
    rw
      (
        Char-path c d (ap first_code conses),
        before_slash a b x y (or_false (code c == 47) h) (or_false (code d == 47) k)
            (ap tail conses),
      )
      refl

not_slash : (c : Char) (s : String) → has_slash (String.◌∷◌ c s) ≡ false → is_char "/" c ≡ false
unfolding has_slash
not_slash c s h = elim (Bool-cases (is_char "/" c)) [
  | inr e ↦ e
  | inl e ↦
      let f : code c ≡ first_code "/" = ap first_code ((eq_iff (String.◌∷◌ c "") "/").0 e) in
      absurd (ground arith)
]

rstrip_none : (s : String) → has_slash s ≡ false → rstrip_char "/" s ≡ s
unfolding rstrip_char rstrip has_slash
rstrip_none String.[] h = refl
rstrip_none (String.◌∷◌ c String.[]) h = rw (not_slash c "" h) refl
rstrip_none (String.◌∷◌ c (String.◌∷◌ d s)) h =
    rw (rstrip_none (String.◌∷◌ d s) (or_false (code c == 47) h)) refl

rstrip_char-append :
    (s : String) (d : Char) (u : String)
    → has_slash (String.◌∷◌ d u) ≡ false
    → rstrip_char "/" (s <> String.◌∷◌ d u) ≡ s <> String.◌∷◌ d u
unfolding rstrip_char rstrip
rstrip_char-append String.[] d u h =
    rw (nil_append (String.◌∷◌ d u)) (rstrip_none (String.◌∷◌ d u) h)
rstrip_char-append (String.◌∷◌ c String.[]) d u h =
    rw
      (
        cons-append c "" (String.◌∷◌ d u),
        nil_append (String.◌∷◌ d u),
        rstrip_none (String.◌∷◌ d u) h,
      )
      refl
rstrip_char-append (String.◌∷◌ c (String.◌∷◌ e s)) d u h =
    let rest = rstrip_char-append (String.◌∷◌ e s) d u h in
    rw (cons-append c (String.◌∷◌ e s) (String.◌∷◌ d u), cons-append e s (String.◌∷◌ d u))
      (rw (rw (cons-append e s (String.◌∷◌ d u)) at rest) refl)

-- Nothing is stripped off a text whose end has no slash.
pub rstrip_char_none :
    (s u : String) → has_slash u ≡ false → u ≢ "" → rstrip_char "/" (s <> u) ≡ s <> u
rstrip_char_none s String.[] h some_char = absurd (some_char refl)
rstrip_char_none s (String.◌∷◌ d u) h some_char = rstrip_char-append s d u h

-- What is in one folder is not in another.
pub other_folder :
    (p a b x : String)
    → has_slash a ≡ false
    → has_slash b ≡ false
    → a ≢ b
    → starts_with ((p <> a) <> ("/" <> x)) ((p <> b) <> "/") ≡ false
other_folder p a b x h k differ =
    elim (Bool-cases (starts_with ((p <> a) <> ("/" <> x)) ((p <> b) <> "/"))) [
      | inr e ↦ e
      | inl e ↦
          let (rest, same) = (starts_with_iff ((p <> a) <> ("/" <> x)) ((p <> b) <> "/")).0 e in
          absurd (
            differ (
              before_slash a b x rest h k (
                append_cancel_left p (a <> ("/" <> x)) (b <> ("/" <> rest)) (
                  sym (append_assoc p a ("/" <> x))
                  ∙ sym same
                  ∙ append_assoc (p <> b) "/" rest
                  ∙ append_assoc p b ("/" <> rest)))))
    ]
