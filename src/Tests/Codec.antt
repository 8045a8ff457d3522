-- ===== src/Tests/Codec.antt =====
-- Concrete codecs for the sample world: JSON as a postfix program, bytes as texts.
use Prim.Native.Nat.{compare, Ordering}
use Prim.Native.Char.{Char, char, code, nul, IsScalar}
use text.Mathlib.TextEquality.{Char-path}
use torr_bsds.Base.{
  ℕ, zero, suc, ◌+◌, String, true, false, List, [], ◌∷◌, ◌≡◌, refl, ap, ◌∙◌, arith, ◌==◌, str_eq,
  if◌then◌else◌,
}
use torr_bsds.Runtime.Json.{
  Json, null, bool, num, str, arr, obj, Items, nil, cons, Fields, end, field, Result, ok, err,
  type_error,
}

-- The character of a number, if there is one.
unfoldable pub char_at_code :
    (n : ℕ) (a b c : Ordering)
    → compare n 55296 ≡ a
    → compare 57343 n ≡ b
    → compare n 1114112 ≡ c
    → Char
char_at_code n Ordering.lt b c e f g = char n (rw e tt)
char_at_code n Ordering.gt Ordering.lt Ordering.lt e f g = char n (rw (e, f, g) tt)
char_at_code n Ordering.eq Ordering.lt Ordering.lt e f g = char n (rw (e, f, g) tt)
char_at_code n a b c e f g = nul

code-char_at_code :
    (n : ℕ) (a b c : Ordering) (e : compare n 55296 ≡ a) (f : compare 57343 n ≡ b)
    (g : compare n 1114112 ≡ c)
    → IsScalar n
    → code (char_at_code n a b c e f g) ≡ n
unfolding char_at_code
code-char_at_code n Ordering.lt b c e f g p = refl
code-char_at_code n Ordering.gt Ordering.lt Ordering.lt e f g p = refl
code-char_at_code n Ordering.eq Ordering.lt Ordering.lt e f g p = refl
code-char_at_code n Ordering.gt Ordering.lt Ordering.eq e f g p = absurd (rw (e, f, g) at p)
code-char_at_code n Ordering.gt Ordering.lt Ordering.gt e f g p = absurd (rw (e, f, g) at p)
code-char_at_code n Ordering.gt Ordering.eq c e f g p = absurd (rw (e, f) at p)
code-char_at_code n Ordering.gt Ordering.gt c e f g p = absurd (rw (e, f) at p)
code-char_at_code n Ordering.eq Ordering.lt Ordering.eq e f g p = absurd (rw (e, f, g) at p)
code-char_at_code n Ordering.eq Ordering.lt Ordering.gt e f g p = absurd (rw (e, f, g) at p)
code-char_at_code n Ordering.eq Ordering.eq c e f g p = absurd (rw (e, f) at p)
code-char_at_code n Ordering.eq Ordering.gt c e f g p = absurd (rw (e, f) at p)

abbrev pub to_char : ℕ → Char
to_char n = char_at_code n _ _ _ refl refl refl

to_char-code : (c : Char) → to_char (code c) ≡ c
to_char-code (char n p) = Char-path _ _ (code-char_at_code n _ _ _ refl refl refl p)

-- A value on the stack of the program.
pub data Val : Type 0 where
  a_json : Json → Val
  a_text : String → Val
  an_items : Items → Val
  a_fields : Fields → Val

abbrev pub Stack : Type 0
Stack = List Val

unfoldable pub dump_text : String → List ℕ → List ℕ
dump_text String.[] rest = 6 ∷ 0 ∷ rest
dump_text (String.◌∷◌ c s) rest = dump_text s (7 ∷ code c ∷ rest)

unfoldable mutual
  pub dump : Json → List ℕ → List ℕ
  dump null rest = 0 ∷ 0 ∷ rest
  dump (bool false) rest = 1 ∷ 0 ∷ rest
  dump (bool true) rest = 1 ∷ 1 ∷ rest
  dump (num n) rest = 2 ∷ n ∷ rest
  dump (str s) rest = dump_text s (3 ∷ 0 ∷ rest)
  dump (arr xs) rest = dump_items xs (4 ∷ 0 ∷ rest)
  dump (obj fs) rest = dump_fields fs (5 ∷ 0 ∷ rest)

  pub dump_items : Items → List ℕ → List ℕ
  dump_items nil rest = 8 ∷ 0 ∷ rest
  dump_items (cons v xs) rest = dump_items xs (dump v (9 ∷ 0 ∷ rest))

  pub dump_fields : Fields → List ℕ → List ℕ
  dump_fields end rest = 10 ∷ 0 ∷ rest
  dump_fields (field k v fs) rest = dump_fields fs (dump_text k (dump v (11 ∷ 0 ∷ rest)))

-- The operations that take something off the stack.
abbrev pub to_str : Stack → Stack
to_str (a_text t ∷ s) = a_json (str t) ∷ s
to_str s = s

abbrev pub to_arr : Stack → Stack
to_arr (an_items xs ∷ s) = a_json (arr xs) ∷ s
to_arr s = s

abbrev pub to_obj : Stack → Stack
to_obj (a_fields fs ∷ s) = a_json (obj fs) ∷ s
to_obj s = s

abbrev pub add_char : ℕ → Stack → Stack
add_char n (a_text t ∷ s) = a_text (String.◌∷◌ (to_char n) t) ∷ s
add_char n s = s

abbrev pub add_item : Stack → Stack
add_item (a_json v ∷ an_items xs ∷ s) = an_items (cons v xs) ∷ s
add_item s = s

abbrev pub add_field : Stack → Stack
add_field (a_json v ∷ a_text k ∷ a_fields fs ∷ s) = a_fields (field k v fs) ∷ s
add_field s = s

abbrev pub step : ℕ → ℕ → Stack → Stack
step m n s =
    if m == 0
    then a_json null ∷ s
    else if m == 1
    then a_json (bool (n == 1)) ∷ s
    else if m == 2
    then a_json (num n) ∷ s
    else if m == 3
    then to_str s
    else if m == 4
    then to_arr s
    else if m == 5
    then to_obj s
    else if m == 6
    then a_text "" ∷ s
    else if m == 7
    then add_char n s
    else if m == 8
    then an_items nil ∷ s
    else if m == 9
    then add_item s
    else if m == 10
    then a_fields end ∷ s
    else if m == 11
    then add_field s
    else s

unfoldable pub load : List ℕ → Stack → Stack
load (m ∷ n ∷ rest) s = load rest (step m n s)
load _ s = s

load-dump_text :
    (t : String) (rest : List ℕ) (s : Stack) → load (dump_text t rest) s ≡ load rest (a_text t ∷ s)
unfolding load dump_text
load-dump_text String.[] rest s = refl
load-dump_text (String.◌∷◌ c t) rest s =
    load-dump_text t (7 ∷ code c ∷ rest) s
    ∙ ap (λ d. load rest (a_text (String.◌∷◌ d t) ∷ s)) (to_char-code c)

mutual
  unfolding load dump dump_text

  load-dump :
      (v : Json) (rest : List ℕ) (s : Stack) → load (dump v rest) s ≡ load rest (a_json v ∷ s)
  load-dump null rest s = refl
  load-dump (bool false) rest s = refl
  load-dump (bool true) rest s = refl
  load-dump (num n) rest s = refl
  load-dump (str t) rest s = load-dump_text t (3 ∷ 0 ∷ rest) s
  load-dump (arr xs) rest s = load-dump_items xs (4 ∷ 0 ∷ rest) s
  load-dump (obj fs) rest s = load-dump_fields fs (5 ∷ 0 ∷ rest) s

  load-dump_items :
      (xs : Items) (rest : List ℕ) (s : Stack)
      → load (dump_items xs rest) s ≡ load rest (an_items xs ∷ s)
  load-dump_items nil rest s = refl
  load-dump_items (cons v xs) rest s =
      load-dump_items xs (dump v (9 ∷ 0 ∷ rest)) s ∙ load-dump v (9 ∷ 0 ∷ rest) (an_items xs ∷ s)

  load-dump_fields :
      (fs : Fields) (rest : List ℕ) (s : Stack)
      → load (dump_fields fs rest) s ≡ load rest (a_fields fs ∷ s)
  load-dump_fields end rest s = refl
  load-dump_fields (field k v fs) rest s =
      load-dump_fields fs (dump_text k (dump v (11 ∷ 0 ∷ rest))) s
      ∙ load-dump_text k (dump v (11 ∷ 0 ∷ rest)) (a_fields fs ∷ s)
      ∙ load-dump v (11 ∷ 0 ∷ rest) (a_text k ∷ a_fields fs ∷ s)

abbrev pub top : Stack → Result Json
top (a_json v ∷ []) = ok v
top _ = err type_error

abbrev pub dumps : Json → List ℕ
dumps v = dump v []

abbrev pub loads : List ℕ → Result Json
loads bytes = top (load bytes [])

pub loads-dumps : (v : Json) → loads (dumps v) ≡ ok v
unfolding load
loads-dumps v = ap top (load-dump v [] [])

-- A number as so many letters and a full stop.
unfoldable pub encode_number : ℕ → String → String
encode_number zero rest = String.◌∷◌ "." rest
encode_number (suc n) rest = String.◌∷◌ "a" (encode_number n rest)

unfoldable pub encode : List ℕ → String
encode [] = ""
encode (n ∷ ns) = encode_number n (encode ns)

unfoldable pub decode_from : ℕ → String → List ℕ
decode_from n String.[] = []
decode_from n (String.◌∷◌ c s) =
    let done = n ∷ decode_from 0 s in
    let more = decode_from (suc n) s in if str_eq (String.◌∷◌ c "") "." then done else more

abbrev pub decode : String → Result (List ℕ)
decode s = ok (decode_from 0 s)

decode-encode_number :
    (acc n : ℕ) (rest : String)
    → decode_from acc (encode_number n rest) ≡ (acc + n) ∷ decode_from 0 rest
unfolding decode_from encode_number
decode-encode_number acc zero rest = ap (λ k. k ∷ decode_from 0 rest) (omega arith)
decode-encode_number acc (suc n) rest =
    decode-encode_number (suc acc) n rest ∙ ap (λ k. k ∷ decode_from 0 rest) (omega arith)

pub decode-encode : (bytes : List ℕ) → decode (encode bytes) ≡ ok bytes
unfolding encode
decode-encode bytes = ap ok (from_start bytes)
  where
    zero_add : (n : ℕ) → 0 + n ≡ n
    zero_add n = omega arith

    from_start : (bs : List ℕ) → decode_from 0 (encode bs) ≡ bs
    from_start [] = unfold decode_from in refl
    from_start (n ∷ ns) =
        decode-encode_number 0 n (encode ns)
        ∙ ap (λ k. k ∷ decode_from 0 (encode ns)) (zero_add n)
        ∙ ap (λ l. n ∷ l) (from_start ns)
