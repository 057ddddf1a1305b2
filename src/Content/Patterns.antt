-- ===== src/Content/Patterns.antt =====
-- What the scan of a key with its value accepts, said of the parts of the pattern
-- `/^[^=:#\r\n][^=:\r\n]*\s*[=:]\s*.*$/`.
use cassem.Base.{
  ℕ, ◌≡◌, refl, ◌↔◌, ap, sym, ◌∙◌, Bool, true, false, not, ◌&&◌, ◌||◌, String, arith, is_space, inl,
  inr, Bool-cases,
}
use Prim.Native.String.{◌++◌ as join}
use Prim.Native.Char.{Char, code}
use text.Mathlib.TextLemmas.{nil-append, cons-append}
use cassem.Content.Ini.{
  is_line_end, is_terminator, is_separator, begins_key, value_rest, value_start, key_gap, key_rest,
  is_key_value,
}

abbrev pub each : (ℕ → Bool) → String → Bool
each p String.[] = true
each p (String.◌∷◌ c text) = p (code c) && each p text

abbrev pub in_key : ℕ → Bool
in_key c = not (is_separator c || is_line_end c)

abbrev pub in_value : ℕ → Bool
in_value c = not (is_terminator c)

-- `\s*.*`
pub record IsValue (text : String) : Type 0 where
  pub lead : String
  pub rest : String
  pub split : text ≡ join lead rest
  pub spaces : each is_space lead ≡ true
  pub on_line : each in_value rest ≡ true

-- `\s*[=:]\s*.*`
pub record IsGap (text : String) : Type 0 where
  pub gap : String
  pub separator : Char
  pub value : String
  pub split : text ≡ join gap (String.◌∷◌ separator value)
  pub spaces : each is_space gap ≡ true
  pub separates : is_separator (code separator) ≡ true
  pub is_value : IsValue value

-- `[^=:\r\n]*\s*[=:]\s*.*`
pub record IsKeyRest (text : String) : Type 0 where
  pub key : String
  pub more : String
  pub split : text ≡ join key more
  pub in_line : each in_key key ≡ true
  pub is_gap : IsGap more

-- A space does not separate.
space-separator : (c : ℕ) → is_space c ≡ true → is_separator c ≡ false
unfolding is_space
space-separator c h = ground arith

value_rest_lem : (text : String) → value_rest text ≡ each in_value text
unfolding value_rest
value_rest_lem String.[] = refl
value_rest_lem (String.◌∷◌ c text) = ground (arith, value_rest_lem text)

value_start-IsValue : (text : String) → value_start text ≡ true → IsValue text
unfolding value_start
value_start-IsValue String.[] h = record {
  lead = "";
  rest = "";
  split = sym (nil-append "");
  spaces = refl;
  on_line = refl;
}
value_start-IsValue (String.◌∷◌ c text) h = elim (Bool-cases (is_space (code c))) [
  | inl space ↦
      let v = value_start-IsValue text (ground arith) in
      record {
        lead = String.◌∷◌ c v.lead;
        rest = v.rest;
        split = ap (λ s. String.◌∷◌ c s) v.split ∙ sym (cons-append c v.lead v.rest);
        spaces = ground (arith, v.spaces);
        on_line = v.on_line;
      }
  | inr other ↦ record {
    lead = "";
    rest = String.◌∷◌ c text;
    split = sym (nil-append (String.◌∷◌ c text));
    spaces = refl;
    on_line = sym (value_rest_lem (String.◌∷◌ c text)) ∙ (rw other at h);
  }
]

value_rest-start : (text : String) → value_rest text ≡ true → value_start text ≡ true
unfolding value_start value_rest
value_rest-start String.[] h = refl
value_rest-start (String.◌∷◌ c text) h = ground (arith, value_rest-start text)

value_start-join :
    (lead rest : String)
    → each is_space lead ≡ true
    → each in_value rest ≡ true
    → value_start (join lead rest) ≡ true
unfolding value_start
value_start-join String.[] rest l r =
    rw (nil-append rest) (value_rest-start rest (value_rest_lem rest ∙ r))
value_start-join (String.◌∷◌ c lead) rest l r =
    rw (cons-append c lead rest) (ground (arith, value_start-join lead rest))

key_gap-IsGap : (text : String) → key_gap text ≡ true → IsGap text
unfolding key_gap
key_gap-IsGap String.[] h = cc
key_gap-IsGap (String.◌∷◌ c text) h = elim (Bool-cases (is_separator (code c))) [
  | inl separates ↦ record {
    gap = "";
    separator = c;
    value = text;
    split = sym (nil-append (String.◌∷◌ c text));
    spaces = refl;
    separates = separates;
    is_value = value_start-IsValue text (rw separates at h);
  }
  | inr other ↦
      let g = key_gap-IsGap text (ground arith) in
      record {
        gap = String.◌∷◌ c g.gap;
        separator = g.separator;
        value = g.value;
        split =
            ap (λ s. String.◌∷◌ c s) g.split
            ∙ sym (cons-append c g.gap (String.◌∷◌ g.separator g.value));
        spaces = ground (arith, g.spaces);
        separates = g.separates;
        is_value = g.is_value;
      }
]

key_gap-join :
    (gap : String) (separator : Char) (value : String)
    → each is_space gap ≡ true
    → is_separator (code separator) ≡ true
    → value_start value ≡ true
    → key_gap (join gap (String.◌∷◌ separator value)) ≡ true
unfolding key_gap
key_gap-join String.[] separator value s d v = rw (nil-append (String.◌∷◌ separator value), d) v
key_gap-join (String.◌∷◌ c gap) separator value s d v =
    let space : is_space (code c) ≡ true = ground arith in
    rw (cons-append c gap (String.◌∷◌ separator value), space-separator (code c) space, space)
      (key_gap-join gap separator value (ground arith) d v)

key_rest-IsKeyRest : (text : String) → key_rest text ≡ true → IsKeyRest text
unfolding key_rest
key_rest-IsKeyRest String.[] h = cc
key_rest-IsKeyRest (String.◌∷◌ c text) h =
    elim (Bool-cases (is_separator (code c) || is_line_end (code c))) [
      | inl ends ↦ record {
        key = "";
        more = String.◌∷◌ c text;
        split = sym (nil-append (String.◌∷◌ c text));
        in_line = refl;
        is_gap = key_gap-IsGap (String.◌∷◌ c text) (ground arith);
      }
      | inr inside ↦
          let k = key_rest-IsKeyRest text (ground arith) in
          record {
            key = String.◌∷◌ c k.key;
            more = k.more;
            split = ap (λ s. String.◌∷◌ c s) k.split ∙ sym (cons-append c k.key k.more);
            in_line = ground (arith, k.in_line);
            is_gap = k.is_gap;
          }
    ]

-- Where a gap begins, so may the rest of a key.
key_gap-key_rest : (text : String) → key_gap text ≡ true → key_rest text ≡ true
unfolding key_gap key_rest
key_gap-key_rest String.[] h = cc
key_gap-key_rest (String.◌∷◌ c text) h = ground (arith, key_gap-key_rest text)

key_rest-join :
    (key more : String)
    → each in_key key ≡ true
    → key_gap more ≡ true
    → key_rest (join key more) ≡ true
unfolding key_rest
key_rest-join String.[] more k g = rw (nil-append more) (key_gap-key_rest more g)
key_rest-join (String.◌∷◌ c key) more k g =
    rw (cons-append c key more) (ground (arith, key_rest-join key more))

-- A line is taken for a key with its value exactly if it is a character that may begin a key, further
-- characters of the key, white space, a separator, white space, and the rest of a line.
pub is_key_value_iff :
    (c : Char) (text : String)
    → (is_key_value (String.◌∷◌ c text) ≡ true) ↔ ((begins_key (code c) ≡ true) × IsKeyRest text)
unfolding is_key_value
is_key_value_iff c text = (
  λ h. (ground arith, key_rest-IsKeyRest text (ground arith)),
  λ (b, k).
      let v = k.is_gap.is_value in
      let value : value_start k.is_gap.value ≡ true =
        ap value_start v.split ∙ value_start-join v.lead v.rest v.spaces v.on_line in
      let gap : key_gap k.more ≡ true =
        ap key_gap k.is_gap.split
        ∙ key_gap-join k.is_gap.gap k.is_gap.separator k.is_gap.value k.is_gap.spaces
            k.is_gap.separates value in
      let rest : key_rest text ≡ true =
        ap key_rest k.split ∙ key_rest-join k.key k.more k.in_line gap in
      rw (b, rest) refl,
)
