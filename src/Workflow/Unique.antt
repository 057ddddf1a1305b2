-- ===== src/Workflow/Unique.antt =====
-- `uniqueStrings`: what the agent and instance menus offer.
use cassem.Base.{
  ℕ, ◌≡◌, refl, inl, inr, true, false, not, List, [], ◌∷◌, ◌++◌, String, arith, keep, Bool-cases,
  if◌then◌else◌, eq_iff, ◌||◌, ◌∙◌,
}
use cassem.Workflow.{is_member, add_to_set, insert_all, unique_strings}
use text.Mathlib.Text.{◌==◌}

-- How often a value occurs.
abbrev count : String → List String → ℕ
count value [] = 0
count value (other ∷ others) =
    if other == value then ℕ.suc (count value others) else count value others

-- A value that stands in the list.
abbrev pub Occurs : String → List String → Type 0
Occurs value values = is_member value values ≡ true

-- No value stands in the list twice.
abbrev pub IsDistinct : List String → Type 0
IsDistinct [] = Unit
IsDistinct (value ∷ values) = (is_member value values ≡ false) × IsDistinct values

is_member-append :
    (value : String) (xs ys : List String)
    → is_member value (xs ++ ys) ≡ (is_member value xs || is_member value ys)
is_member-append value [] ys = refl
is_member-append value (x ∷ xs) ys = ground (arith, is_member-append value xs ys)

IsDistinct-push :
    (xs : List String) (value : String)
    → IsDistinct xs
    → is_member value xs ≡ false
    → IsDistinct (xs ++ value ∷ [])
IsDistinct-push [] value d h = (refl, tt)
IsDistinct-push (x ∷ xs) value d h = (
  rw (is_member-append x xs (value ∷ [])) (ground (arith, eq_iff x value, eq_iff value x)),
  IsDistinct-push xs value d.1 (ground arith),
)

is_member-add_to_set :
    (value other : String) (values : List String)
    → is_member value (add_to_set values other) ≡ (is_member value values || other == value)
unfolding add_to_set
is_member-add_to_set value other values = elim (Bool-cases (is_member other values)) [
  | inl old ↦ rw old (ground (arith, eq_iff other value))
  | inr new ↦ rw (new, is_member-append value values (other ∷ [])) (ground arith)
]

add_to_set-IsDistinct :
    (value : String) (values : List String)
    → IsDistinct values
    → IsDistinct (add_to_set values value)
unfolding add_to_set
add_to_set-IsDistinct value values d = elim (Bool-cases (is_member value values)) [
  | inl old ↦ rw old d
  | inr new ↦ rw new (IsDistinct-push values value d new)
]

insert_all-IsDistinct :
    (values more : List String) → IsDistinct values → IsDistinct (insert_all values more)
unfolding insert_all
insert_all-IsDistinct values [] d = d
insert_all-IsDistinct values (v ∷ vs) d =
    insert_all-IsDistinct (add_to_set values v) vs (add_to_set-IsDistinct v values d)

is_member-insert_all :
    (value : String) (values more : List String)
    → is_member value (insert_all values more) ≡ (is_member value values || is_member value more)
unfolding insert_all
is_member-insert_all value values [] = ground arith
is_member-insert_all value values (v ∷ vs) = ground (
  arith,
  is_member-insert_all value (add_to_set values v) vs,
  is_member-add_to_set value v values,
)

is_member-keep :
    (value : String) (values : List String)
    → is_member value (keep (λ v. not (v == "")) values)
      ≡ (if value == "" then false else is_member value values)
is_member-keep value [] = ground arith
is_member-keep value (v ∷ vs) =
    ground (arith, is_member-keep value vs, eq_iff v value, eq_iff v "", eq_iff value "")

-- The result holds no value twice, and holds exactly the values of the input other than "".
pub unique_strings_lem :
    (values : List String)
    → IsDistinct (unique_strings values)
      × ((value : String)
          → is_member value (unique_strings values)
            ≡ (if value == "" then false else is_member value values))
unfolding unique_strings
unique_strings_lem values = (
  insert_all-IsDistinct [] (keep (λ v. not (v == "")) values) tt,
  λ value.
      is_member-insert_all value [] (keep (λ v. not (v == "")) values)
      ∙ is_member-keep value values,
)
