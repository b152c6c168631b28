-- ===== src/Prelude/Texts.antt =====
-- Texts, the JSON values that Python's `json` and the database hand over, and what the code uses
-- of the Python runtime on them.
use Prim.Native.Nat.{ℕ, zero, suc, ◌≤◌}
use native.Mathlib.Omega.{arith}
use Prim.Native.String.{String, ◌++◌ as append}
use mathlib.Core.Bool.{Bool, true, false, not}
use mathlib.Core.Option.{none, some}
use mathlib.Core.List.{List, [], ◌∷◌}
use text.Mathlib.Text.{◌==◌ as native_eq, find?}
use text.Mathlib.TextEquality.{eq_iff}
use mathlib.Core.Path.{◌≡◌, sym, ◌∙◌}
use mathlib.Core.Logic.{inl, inr}
use diy_agent.Prelude.Tests.{Bool-cases, if◌then◌else◌}

abbrev pub text_eq : String → String → Bool
text_eq s t = native_eq s t

pub text_eq_sym : (s t : String) → text_eq s t ≡ text_eq t s
text_eq_sym s t = elim (Bool-cases (text_eq s t)) [
  | inl same ↦ same ∙ sym ((eq_iff t s).1 (sym ((eq_iff s t).0 same)))
  | inr differs ↦ elim (Bool-cases (text_eq t s)) [
    | inl same ↦ (eq_iff s t).1 (sym ((eq_iff t s).0 same)) ∙ sym same
    | inr other ↦ differs ∙ sym other
  ]
]

-- `s + t`
abbrev pub text_append : String → String → String
text_append s t = append s t

-- `text[:n]`, by characters
abbrev pub take_text : ℕ → String → String
take_text zero s = ""
take_text (suc n) String.[] = ""
take_text (suc n) (String.◌∷◌ c s) = String.◌∷◌ c (take_text n s)

-- `len(text)`
abbrev pub text_length : String → ℕ
text_length String.[] = 0
text_length (String.◌∷◌ c s) = suc (text_length s)

pub take_text-length : (n : ℕ) (s : String) → text_length (take_text n s) ≤ n
take_text-length zero s = omega arith
take_text-length (suc n) String.[] = omega arith
take_text-length (suc n) (String.◌∷◌ c s) = omega (arith, take_text-length n s)

-- `token in text`
abbrev pub has_token : String → String → Bool
has_token token text = elim (find? text token) [ none ↦ false | some _ ↦ true ]

mutual
  pub data Json : Type 0 where
    null : Json
    bool : Bool → Json
    num : String → Json
    str : String → Json
    arr : Items → Json
    obj : Fields → Json

  pub data Items : Type 0 where
    nil : Items
    cons : Json → Items → Items

  pub data Fields : Type 0 where
    end : Fields
    field : String → Json → Fields → Fields

-- What the code calls of the runtime: `str.lower`, `str.strip`, `str` of a value that is no text,
-- and whether a number, as printed, is zero.
pub record Python : Type 0 where
  pub lower : String → String
  pub strip : String → String
  pub to_str : Json → String
  pub is_zero : String → Bool

abbrev pub lookup_field : String → Fields → Json
lookup_field key end = null
lookup_field key (field k v fs) = if text_eq k key then v else lookup_field key fs

-- `key in value`
abbrev pub has_key : String → Fields → Bool
has_key key end = false
has_key key (field k v fs) = if text_eq k key then true else has_key key fs

-- A new entry of a dictionary, at its end.
abbrev pub add_field : String → Json → Fields → Fields
add_field key value end = field key value end
add_field key value (field k v fs) = field k v (add_field key value fs)

-- `value.get(key)` on a dictionary; any other value has no fields.
abbrev pub get : String → Json → Json
get key (obj fs) = lookup_field key fs
get key _ = null

abbrev pub truthy : Python → Json → Bool
truthy py null = false
truthy py (bool b) = b
truthy py (num n) = not (py.is_zero n)
truthy py (str s) = not (text_eq s "")
truthy py (arr nil) = false
truthy py (arr (cons x xs)) = true
truthy py (obj end) = false
truthy py (obj (field k v fs)) = true

-- `a or b`
abbrev pub or_else : Python → Json → Json → Json
or_else py a b = if truthy py a then a else b

-- `str(value)`
abbrev pub as_text : Python → Json → String
as_text py (str s) = s
as_text py v = py.to_str v

abbrev pub items : Items → List Json
items nil = []
items (cons x xs) = x ∷ items xs

-- The items of a JSON list, and none for any other value.
abbrev pub elements : Json → List Json
elements (arr xs) = items xs
elements _ = []

abbrev pub is_obj : Json → Bool
is_obj (obj fs) = true
is_obj _ = false
