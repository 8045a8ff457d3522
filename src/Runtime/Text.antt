-- ===== src/Runtime/Text.antt =====
-- The methods of `str` that the scripts use.
pub mod Prefix
pub mod Folder
pub mod Suffix
pub mod Order
use Prim.Native.Char.{Char, code}
use text.Mathlib.Text.{starts_with}
use torr_bsds.Base.{
  ℕ, String, Bool, true, false, ◌||◌, ◌&&◌, List, [], ◌∷◌, str_eq, ◌==◌, leb, ltb, if◌then◌else◌,
}

abbrev is_char : String → Char → Bool
is_char s c = str_eq (String.◌∷◌ c "") s

-- `s.endswith(suffix)`
unfoldable pub ends_with : String → String → Bool
ends_with String.[] suffix = str_eq "" suffix
ends_with (String.◌∷◌ c s) suffix = str_eq (String.◌∷◌ c s) suffix || ends_with s suffix

-- `part in s`
unfoldable pub has_text : String → String → Bool
has_text part String.[] = str_eq "" part
has_text part (String.◌∷◌ c s) = starts_with (String.◌∷◌ c s) part || has_text part s

-- What `strip` takes off a text in ASCII: a blank, or one of the control characters from tab to
-- carriage return. Python's takes off further whitespace, which is left out.
abbrev pub is_space : Char → Bool
is_space c = (code c == 32) || (leb 9 (code c) && leb (code c) 13)

module _ (drop? : Char → Bool) where
  unfoldable pub lstrip : String → String
  lstrip String.[] = ""
  lstrip (String.◌∷◌ c s) = let rest = lstrip s in if drop? c then rest else String.◌∷◌ c s

  -- A character goes if nothing is left after it.
  abbrev rstrip_cons : Char → String → String
  rstrip_cons c String.[] = if drop? c then "" else String.◌∷◌ c ""
  rstrip_cons c (String.◌∷◌ d s) = String.◌∷◌ c (String.◌∷◌ d s)

  unfoldable pub rstrip : String → String
  rstrip String.[] = ""
  rstrip (String.◌∷◌ c s) = rstrip_cons c (rstrip s)

-- `s.strip()`
unfoldable pub strip : String → String
strip s = lstrip is_space (rstrip is_space s)

-- `s.rstrip(chars)` for one character
unfoldable pub rstrip_char : String → String → String
rstrip_char chars s = rstrip (is_char chars) s

-- A piece that goes on, and the pieces after it.
abbrev cons_piece : Char → List String → List String
cons_piece c [] = String.◌∷◌ c "" ∷ []
cons_piece c (piece ∷ pieces) = String.◌∷◌ c piece ∷ pieces

-- `s.split(sep)` for one character
unfoldable pub split : String → String → List String
split sep String.[] = "" ∷ []
split sep (String.◌∷◌ c s) =
    let rest = split sep s in if is_char sep c then "" ∷ rest else cons_piece c rest

-- The order of texts: by the first character in which they differ.
unfoldable pub le_text : String → String → Bool
le_text String.[] t = true
le_text (String.◌∷◌ c s) String.[] = false
le_text (String.◌∷◌ c s) (String.◌∷◌ d t) =
    let rest = le_text s t in if code c == code d then rest else ltb (code c) (code d)
