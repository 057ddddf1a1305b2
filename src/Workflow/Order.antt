-- ===== src/Workflow/Order.antt =====
-- The options in the order of the menu, and the version in use.
use mathlib.Core.List.{Perm}
use mathlib.Core.List.Perm
use cassem.Base.{
  refl, suc, Option, true, ◌≡◌, Option-cases, some, ℕ, ◌≤◌, inl, inr, List, [], ◌∷◌, arith, leb,
  Bool-cases, All,
}
use cassem.Domain.{infinity, neg, nat, positive, Number, is_number, Element}
use cassem.Workflow.{
  option_of, to_version_option, VersionOption, version_options_of, insert_option, sort_options,
  to_version_options,
}

-- Newest first.
abbrev pub IsDescending : List VersionOption → Type 0
IsDescending [] = Unit
IsDescending (option ∷ options) =
    All (λ other. other.version ≤ option.version) options × IsDescending options

All-weaken :
    (m n : ℕ) (options : List VersionOption)
    → m ≤ n
    → All (λ other. other.version ≤ m) options
    → All (λ other. other.version ≤ n) options
All-weaken m n [] h a = tt
All-weaken m n (o ∷ os) h a = (omega arith, All-weaken m n os h a.1)

insert_option-All :
    (n : ℕ) (option : VersionOption) (options : List VersionOption)
    → option.version ≤ n
    → All (λ other. other.version ≤ n) options
    → All (λ other. other.version ≤ n) (insert_option option options)
unfolding insert_option
insert_option-All n option [] h a = (h, tt)
insert_option-All n option (o ∷ os) h a = ground (arith, insert_option-All n option os h a.1)

insert_option-IsDescending :
    (option : VersionOption) (options : List VersionOption)
    → IsDescending options
    → IsDescending (insert_option option options)
unfolding insert_option
insert_option-IsDescending option [] d = (tt, tt)
insert_option-IsDescending option (o ∷ os) d = elim (Bool-cases (leb o.version option.version)) [
  | inl older ↦
      rw older ((ground arith, All-weaken o.version option.version os (ground arith) d.0), d)
  | inr newer ↦ rw newer (
    insert_option-All o.version option os (ground arith) d.0,
    insert_option-IsDescending option os d.1,
  )
]

insert_option-perm :
    (option : VersionOption) (options : List VersionOption)
    → Perm (insert_option option options) (option ∷ options)
unfolding insert_option
insert_option-perm option [] = Perm.refl _
insert_option-perm option (o ∷ os) = elim (Bool-cases (leb o.version option.version)) [
  | inl older ↦ rw older (Perm.refl _)
  | inr newer ↦ rw newer (Perm.trans (Perm.cons o (insert_option-perm option os)) (Perm.swap _ _ _))
]

sort_options-IsDescending : (options : List VersionOption) → IsDescending (sort_options options)
unfolding sort_options
sort_options-IsDescending [] = tt
sort_options-IsDescending (o ∷ os) =
    insert_option-IsDescending o (sort_options os) (sort_options-IsDescending os)

sort_options-perm : (options : List VersionOption) → Perm (sort_options options) options
unfolding sort_options
sort_options-perm [] = Perm.refl _
sort_options-perm (o ∷ os) =
    Perm.trans (insert_option-perm o (sort_options os)) (Perm.cons o (sort_options-perm os))

-- The menu lists the newest version first, and holds the same options, each as often, as the
-- elements with a positive version give.
pub to_version_options-sorted :
    (elements : List Element)
    → IsDescending (to_version_options elements)
      × Perm (to_version_options elements) (version_options_of elements)
unfolding to_version_options
to_version_options-sorted elements = (
  sort_options-IsDescending (version_options_of elements),
  sort_options-perm (version_options_of elements),
)

abbrev IsNumbered : VersionOption → Type 0
IsNumbered option = is_number option.element.version option.version ≡ true

to_version_option-IsNumbered :
    (element : Element) (option : VersionOption)
    → to_version_option element ≡ some option
    → IsNumbered option
unfolding to_version_option
to_version_option-IsNumbered element option e = go element.version refl e
  where
    go :
        (version : Option Number)
        → element.version ≡ version
        → option_of element (positive version) ≡ some option
        → IsNumbered option
    go (some (nat (suc n))) h e' = ground arith
    go Option.none h e' = cc
    go (some (nat ℕ.zero)) h e' = cc
    go (some (neg n)) h e' = cc
    go (some (infinity b)) h e' = cc
    go (some Number.nan) h e' = cc

version_options_of-IsNumbered :
    (elements : List Element) → All IsNumbered (version_options_of elements)
unfolding version_options_of
version_options_of-IsNumbered [] = tt
version_options_of-IsNumbered (e ∷ es) = elim (Option-cases (to_version_option e)) [
  | inl skipped ↦ rw (skipped, version_options_of) (version_options_of-IsNumbered es)
  | inr (option, found) ↦
      rw (found, version_options_of)
        (to_version_option-IsNumbered e option found, version_options_of-IsNumbered es)
]

insert_option-IsNumbered :
    (option : VersionOption) (options : List VersionOption)
    → IsNumbered option
    → All IsNumbered options
    → All IsNumbered (insert_option option options)
unfolding insert_option
insert_option-IsNumbered option [] h a = (h, tt)
insert_option-IsNumbered option (o ∷ os) h a =
    ground (arith, insert_option-IsNumbered option os h a.1)

sort_options-IsNumbered :
    (options : List VersionOption) → All IsNumbered options → All IsNumbered (sort_options options)
unfolding sort_options
sort_options-IsNumbered [] a = tt
sort_options-IsNumbered (o ∷ os) a =
    insert_option-IsNumbered o (sort_options os) a.0 (sort_options-IsNumbered os a.1)

-- The element behind each option has the option's version.
pub to_version_options-numbered :
    (elements : List Element)
    → All
        (λ option. is_number option.element.version option.version ≡ true)
        (to_version_options elements)
unfolding to_version_options
to_version_options-numbered elements =
    sort_options-IsNumbered (version_options_of elements) (version_options_of-IsNumbered elements)
