-- ===== src/Domain.antt =====
-- web/src/domain/types.ts: the values that the API sends and the pages keep.
use cassem.Base.{ℕ, suc, Bool, true, false, Option, none, some, String, ◌==◌}

-- A number of a JSON payload, without fractions: no field of this API carries one. `neg n` is
-- -(n + 1). A literal out of range, such as 1e999, is read as an infinity.
pub data Number : Type 0 where
  nat : ℕ → Number
  neg : ℕ → Number
  infinity : Bool → Number
  nan : Number

-- `typeof value === 'number' && Number.isFinite(value) && value > 0`, with the value.
unfoldable pub positive : Option Number → Option ℕ
positive (some (nat (suc n))) = some (suc n)
positive _ = none

-- `Boolean(value)` of an optional number.
unfoldable pub is_truthy : Option Number → Bool
is_truthy none = false
is_truthy (some (nat n)) = elim n [ ℕ.zero ↦ false | suc m ↦ true ]
is_truthy (some nan) = false
is_truthy (some _) = true

-- `value === n` for a count `n`.
abbrev pub is_number : Option Number → ℕ → Bool
is_number (some (nat m)) n = m == n
is_number _ n = false

-- `number | string`, or no value.
pub data ContentType : Type 0 where
  absent : ContentType
  number : Number → ContentType
  name : String → ContentType

pub record ElementMetadata : Type 0 where
  pub key : String
  pub latest_version : Option Number
  pub using_version : Option Number
  pub unpublished_version : Option Number
  pub content_type : ContentType

pub record Element : Type 0 where
  pub metadata : ElementMetadata
  pub raw : Option String
  pub version : Option Number
  pub published : Bool
