-- ===== src/Base/Pick.antt =====
-- One of several awaited calls ends: which one, and which are left. Calls that run at the same time
-- end in any order.
use Prim.Native.Nat.{ℕ, suc, ◌+◌}
use Prim.Native.String.{String}
use mathlib.Core.Path.{◌≡◌}
use mathlib.Core.List.{List, [], ◌∷◌, ◌++◌, map}
use native.Mathlib.Omega.{arith}
use text.Mathlib.Text.{◌==◌}
use cassem.Base.Tests.{if◌then◌else◌}
use cassem.Base.Lists.{length, All}

pub data Pick {ℓ} {A : Type ℓ} : A → List A → List A → Type ℓ where
  first : {x : A} {rest : List A} → Pick x (x ∷ rest) rest
  later : {x other : A} {xs rest : List A} → Pick x xs rest → Pick x (other ∷ xs) (other ∷ rest)

-- How often a text occurs.
abbrev pub count : String → List String → ℕ
count key [] = 0
count key (other ∷ others) = if other == key then suc (count key others) else count key others

pub count-append :
    (key : String) (xs ys : List String) → count key (xs ++ ys) ≡ count key xs + count key ys
count-append key [] ys = omega arith
count-append key (x ∷ xs) ys = ground (arith, count-append key xs ys)

-- Picking takes one element out.
pub length-Pick {ℓ} :
    {A : Type ℓ} {x : A} {xs rest : List A} → Pick x xs rest → length xs ≡ suc (length rest)
length-Pick first = omega arith
length-Pick (later p) = omega (arith, length-Pick p)

pub count-Pick {ℓ} :
    {A : Type ℓ} {x : A} {xs rest : List A} (f : A → String) (key : String)
    → Pick x xs rest
    → count key (map f xs) ≡ count key (f x ∷ map f rest)
count-Pick f key first = ground arith
count-Pick f key (later p) = ground (arith, count-Pick f key p)

pub All-Pick {ℓ κ} :
    {A : Type ℓ} (P : A → Type κ) {x : A} {xs rest : List A}
    → Pick x xs rest
    → All P xs
    → P x × All P rest
All-Pick P first a = a
All-Pick P (later p) a = let (c, b) = All-Pick P p a.1 in (c, (a.0, b))
