-- ===== src/Text.antt =====
-- Python's `str` as the list of its code points, with the methods that the server calls. Case,
-- white space and digits are those of ASCII; `str.lower`, `str.strip` and `str.isdigit` go further on
-- other characters.
pub mod Laws
use Prim.Native.Char.{code}
use autoedge_licensing_serve.Prelude.{
  ℕ, ◌+◌, String, Bool, true, false, ◌&&◌, ◌||◌, Option, none, some, List, [], ◌∷◌, ◌++◌, map,
  reverse, ◌-◌, leb, ◌==◌, if◌then◌else◌, any, all,
}

abbrev pub Text : Type 0
Text = List ℕ

-- a literal
abbrev pub text : String → Text
text String.[] = []
text (String.◌∷◌ c s) = code c ∷ text s

-- `==` on texts
unfoldable pub same_text : Text → Text → Bool
same_text [] [] = true
same_text [] (d ∷ t) = false
same_text (c ∷ s) [] = false
same_text (c ∷ s) (d ∷ t) = (c == d) && same_text s t

-- `==` on values that may be None
abbrev pub same_optional : Option Text → Option Text → Bool
same_optional none none = true
same_optional none (some t) = false
same_optional (some s) none = false
same_optional (some s) (some t) = same_text s t

unfoldable pub lower_char : ℕ → ℕ
lower_char c = if leb b'A' c && leb c b'Z' then c + 32 else c

unfoldable pub lower : Text → Text
unfolding lower_char
lower = map lower_char

unfoldable pub upper_char : ℕ → ℕ
upper_char c = if leb b'a' c && leb c b'z' then c - 32 else c

unfoldable pub upper : Text → Text
unfolding upper_char
upper = map upper_char

abbrev pub is_space : ℕ → Bool
is_space c = (leb 9 c && leb c 13) || (leb 28 c && leb c 32)

abbrev pub is_digit : ℕ → Bool
is_digit c = leb b'0' c && leb c b'9'

-- `s.isdigit()` for a text that is not empty
abbrev pub all_digits : Text → Bool
all_digits = all is_digit

unfoldable pub strip_left : Text → Text
strip_left [] = []
strip_left (c ∷ s) = if is_space c then strip_left s else c ∷ s

-- `s.strip()`
unfoldable pub strip : Text → Text
unfolding strip_left
strip s = reverse (strip_left (reverse (strip_left s)))

unfoldable pub replace_char : ℕ → ℕ → Text → Text
replace_char old new = map (λ c. if c == old then new else c)

unfoldable pub starts_with : Text → Text → Bool
starts_with s [] = true
starts_with [] (d ∷ t) = false
starts_with (c ∷ s) (d ∷ t) = (c == d) && starts_with s t

-- `part in s`
unfoldable pub contains : Text → Text → Bool
unfolding starts_with
contains part [] = starts_with [] part
contains part (c ∷ s) = starts_with (c ∷ s) part || contains part s

-- `any(word in s for word in words)`
unfoldable pub contains_any : List Text → Text → Bool
unfolding contains
contains_any words s = any (λ word. contains word s) words

-- puts a character before the first part
abbrev pub onto_first : ℕ → List Text → List Text
onto_first c [] = (c ∷ []) ∷ []
onto_first c (part ∷ parts) = (c ∷ part) ∷ parts

-- `s.split(sep)` for one character: never empty
unfoldable pub split : ℕ → Text → List Text
split sep [] = [] ∷ []
split sep (c ∷ s) = if c == sep then [] ∷ split sep s else onto_first c (split sep s)

-- the truth value of an optional text: None and "" are false
abbrev pub is_truthy : Option Text → Bool
is_truthy none = false
is_truthy (some []) = false
is_truthy (some (c ∷ s)) = true

-- `left or right` on optional texts
infixr 30 ◌or_text◌
abbrev pub ◌or_text◌ : Option Text → Option Text → Option Text
none or_text right = right
some [] or_text right = right
some (c ∷ s) or_text right = some (c ∷ s)

-- f"{a}:{b}:…"
unfoldable pub colon_joined : Text → List Text → Text
colon_joined first [] = first
colon_joined first (part ∷ parts) = first ++ (b':' ∷ colon_joined part parts)

-- `value or ""`
abbrev pub or_empty : Option Text → Text
or_empty none = []
or_empty (some s) = s

-- a text as an optional value: "" becomes None
abbrev pub nonempty : Text → Option Text
nonempty [] = none
nonempty (c ∷ s) = some (c ∷ s)
