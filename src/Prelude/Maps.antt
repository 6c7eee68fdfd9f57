-- ===== src/Prelude/Maps.antt =====
-- Maps with texts as keys (`HashMap`, `BTreeMap`) as association lists, and sets of texts as lists.
use Prim.Native.String.{String}
use mathlib.Core.Bool.{Bool, true, false, not, ◌&&◌, ◌||◌}
use mathlib.Core.Option.{Option, none, some}
use mathlib.Core.List.{List, [], ◌∷◌}
use mathlib.Core.Path.{◌≡◌}
use text.Mathlib.Text.{◌==◌ as str_eq}
use text.Mathlib.TextEquality.{eq_iff}
use text.Mathlib.TextPositions.{eq_refl}
use lane.Prelude.Tests.{if◌then◌else◌, is_some}
use lane.Prelude.Lists.{filter}

-- `==` of texts, and what it says.
pub same_text : (s t : String) → str_eq s t ≡ true → s ≡ t
same_text s t h = (eq_iff s t).0 h

pub text_refl : (s : String) → str_eq s s ≡ true
text_refl s = eq_refl s

abbrev pub same_option : Option String → Option String → Bool
same_option none none = true
same_option (some a) (some b) = str_eq a b
same_option _ _ = false

module _ {ℓ} {A : Type ℓ} where
  abbrev pub lookup : String → List (String × A) → Option A
  lookup id [] = none
  lookup id ((k, a) ∷ m) = if str_eq k id then some a else lookup id m

  abbrev pub erase : String → List (String × A) → List (String × A)
  erase id = filter (λ r. not (str_eq r.0 id))

  -- An insertion replaces the value of a key that is there.
  abbrev pub insert_at : String → A → List (String × A) → List (String × A)
  insert_at id a [] = (id, a) ∷ []
  insert_at id a ((k, b) ∷ m) = if str_eq k id then (k, a) ∷ m else (k, b) ∷ insert_at id a m

  abbrev pub has_key : String → List (String × A) → Bool
  has_key id m = is_some (lookup id m)

abbrev pub has_text : String → List String → Bool
has_text s [] = false
has_text s (t ∷ ts) = str_eq t s || has_text s ts

abbrev pub add_text : String → List String → List String
add_text s ts = if has_text s ts then ts else s ∷ ts

abbrev pub erase_text : String → List String → List String
erase_text s = filter (λ t. not (str_eq t s))

abbrev pub same_pair : String × String → String × String → Bool
same_pair p q = str_eq p.0 q.0 && str_eq p.1 q.1

abbrev pub has_pair : String × String → List (String × String) → Bool
has_pair p [] = false
has_pair p (q ∷ qs) = same_pair q p || has_pair p qs

abbrev pub erase_pair : String × String → List (String × String) → List (String × String)
erase_pair p = filter (λ q. not (same_pair q p))
