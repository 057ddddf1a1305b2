-- ===== src/Detail/Diff.antt =====
-- The diff that the page of one element offers first.
use cassem.Base.{
  ℕ, suc, ◌≡◌, refl, sym, ◌∙◌, ap, subst, ◌⊎◌, inl, inr, true, false, Option, some, none, List, [],
  ◌∷◌, String, arith, if◌then◌else◌, Bool-cases, trim,
}
use cassem.Base.Decimal.{decimal, trim-decimal}
use cassem.Domain.{Number, nat, Element, is_number, is_truthy}
use cassem.Effects.{resolved}
use cassem.Detail.State.{DiffPair, State, no_error}
use cassem.Detail.Handlers.{version_at, handle_load_diff}
use cassem.Detail.Loading.{
  Loaded, with_number, numbered, last_of, first_option, last_option, apply_page, page_settled,
  text_of_number,
}

abbrev Has : ℕ → List Number → Type 0
Has n [] = ⊥
Has n (version ∷ versions) = (version ≡ nat n) ⊎ Has n versions

Has-last_of :
    (n : ℕ) (version : Number) (versions : List Number)
    → last_of version versions ≡ nat n
    → Has n (version ∷ versions)
Has-last_of n version [] e = inl e
Has-last_of n version (other ∷ others) e = inr (Has-last_of n other others e)

Has-with_number :
    (n : ℕ) (version : Option Number) (versions : List Number)
    → is_number version n ≡ false
    → Has n (with_number version versions)
    → Has n versions
Has-with_number n none versions other h = h
Has-with_number n (some version) versions other (inl e) =
    absurd (ground (arith, sym (ap (λ (v : Number). is_number (some v) n) e) ∙ other))
Has-with_number n (some version) versions other (inr h) = h

-- A version that the menu offers is found.
version_at-Has :
    (n : ℕ) (versions : List Element)
    → Has n (numbered versions)
    → (element : Element) × (version_at n versions ≡ some element)
      × (is_number element.version n ≡ true)
version_at-Has n [] h = absurd h
version_at-Has n (element ∷ elements) h = elim (Bool-cases (is_number element.version n)) [
  | inl same ↦ (element, ap (λ b. if b then some element else version_at n elements) same, same)
  | inr other ↦
      let (found, e, k) =
        version_at-Has n elements (Has-with_number n element.version (numbered elements) other h) in
      (found, ap (λ b. if b then some element else version_at n elements) other ∙ e, k)
]

handle_load_diff-found :
    (number_of : String → Option ℕ) (u : State) (n m : ℕ) (base compare : Element)
    → number_of (trim u.diff_base) ≡ some (suc n)
    → number_of (trim u.diff_compare) ≡ some (suc m)
    → version_at (suc n) u.versions ≡ some base
    → version_at (suc m) u.versions ≡ some compare
    → handle_load_diff number_of u ≡ record u {
      diff_pair = some (record { base = base; compare = compare });
      diff_loaded = true;
      error = no_error;
    }
unfolding handle_load_diff
handle_load_diff-found number_of u n m base compare b c found_b found_c = ground arith

-- Once the page has come with several numbered versions, the first and the last of which are positive,
-- "Show diff" shows without further choice the difference between an element with the first of these
-- versions and one with the last. (`number_of` reads a decimal number.)
pub page_settled-handle_load_diff :
    (decode : String → Option String) (number_of : String → Option ℕ)
    → ((n : ℕ) → number_of (decimal n) ≡ some n)
    → (loaded : Loaded) (s : State) (base compare : ℕ) (other : Number) (others : List Number)
    → s.mounted ≡ true
    → numbered loaded.versions ≡ nat (suc base) ∷ other ∷ others
    → last_of other others ≡ nat (suc compare)
    → let t =
        handle_load_diff number_of
          (page_settled decode s.request_seq false (resolved loaded) s).state in
      (pair : DiffPair) × (t.diff_pair ≡ some pair)
      × (t.diff_loaded ≡ true)
      × (is_number pair.base.version (suc base) ≡ true)
      × (is_number pair.compare.version (suc compare) ≡ true)
unfolding page_settled handle_load_diff is_truthy
page_settled-handle_load_diff decode number_of law loaded s base compare other others m e l =
    let (b, found_b, is_b) =
      version_at-Has (suc base) loaded.versions (subst (Has (suc base)) (sym e) (inl refl)) in
    let (c, found_c, is_c) =
      version_at-Has (suc compare) loaded.versions
        (subst (Has (suc compare)) (sym e) (inr (Has-last_of (suc compare) other others l))) in
    let u : State = apply_page decode (resolved loaded) s in
    let shown : (page_settled decode s.request_seq false (resolved loaded) s).state ≡ u =
      ground arith in
    let reads : (n : ℕ) → number_of (trim (decimal n)) ≡ some n =
      λ n. ap number_of (trim-decimal n) ∙ law n in
    let from : u.diff_base ≡ decimal (suc base) = ap first_option e in
    let to : u.diff_compare ≡ decimal (suc compare) = ap last_option e ∙ ap text_of_number l in
    let done : handle_load_diff number_of
          (page_settled decode s.request_seq false (resolved loaded) s).state
        ≡ record u {
          diff_pair = some (record { base = b; compare = c });
          diff_loaded = true;
          error = no_error;
        } =
      ap (handle_load_diff number_of) shown
      ∙ handle_load_diff-found number_of u base compare b c
          (ap (λ text. number_of (trim text)) from ∙ reads (suc base))
          (ap (λ text. number_of (trim text)) to ∙ reads (suc compare)) found_b found_c in
    (
      record { base = b; compare = c },
      ap (λ (t : State). t.diff_pair) done,
      ap (λ (t : State). t.diff_loaded) done,
      is_b,
      is_c,
    )
