-- ===== src/Detail/Published.antt =====
-- Which version "Publish directly" publishes.
use cassem.Base.{
  ◌≡◌, sym, ◌∙◌, ap, ◌⊎◌, ◌≢◌, inl, inr, true, false, Option, some, none, [], ◌∷◌, arith,
  Bool-cases,
}
use cassem.Domain.{Number, nat, Element, ElementMetadata, is_truthy}
use cassem.Effects.{resolved, label, get_error_message}
use cassem.Detail.State.{Location, State, publish_job}
use cassem.Detail.Handlers.{
  get_settled, version_to_publish, number_or_zero, exceeds, can_apply_mutation_result,
}

-- The draft that the server names; without one, its latest version if that is newer than the latest
-- version that the page had when the publication began.
pub data IsPublishable (previous : Option Number) (metadata : ElementMetadata) (version : Number)
    : Type 0 where
  draft :
      metadata.unpublished_version ≡ some version
      → is_truthy (some version) ≡ true
      → IsPublishable previous metadata version
  newer :
      is_truthy metadata.unpublished_version ≡ false
      → metadata.latest_version ≡ some version
      → is_truthy (some version) ≡ true
      → exceeds version (number_or_zero previous) ≡ true
      → IsPublishable previous metadata version

number_or_zero-some :
    (value : Option Number)
    → is_truthy (some (number_or_zero value)) ≡ true
    → value ≡ some (number_or_zero value)
unfolding is_truthy
number_or_zero-some none h = cc
number_or_zero-some (some version) h = elim (Bool-cases (is_truthy (some version))) [
  | inl given ↦ rw given
  | inr zero_ ↦ absurd (ground (arith, zero_))
]

number_or_zero-given :
    (value : Option Number) (version : Number)
    → value ≡ some version
    → is_truthy (some version) ≡ true
    → number_or_zero value ≡ version
unfolding is_truthy
number_or_zero-given none version e h = cc
number_or_zero-given (some other) version e h =
    let same : other ≡ version = cc in
    let given : is_truthy (some other) ≡ true = ap (λ (n : Number). is_truthy (some n)) same ∙ h in
    rw given same

not_truthy_zero : is_truthy (some (nat 0)) ≢ true
unfolding is_truthy
not_truthy_zero e = cc

-- What the code computes, if it is not 0, is publishable.
IsPublishable-version_to_publish :
    (previous : Option Number) (metadata : ElementMetadata)
    → is_truthy (some (version_to_publish previous metadata)) ≡ true
    → IsPublishable previous metadata (version_to_publish previous metadata)
unfolding version_to_publish
IsPublishable-version_to_publish previous metadata h =
    let latest : Number = number_or_zero metadata.latest_version in
    elim (Bool-cases (is_truthy metadata.unpublished_version)) [
      | inl drafted ↦
          let given = rw drafted at h in
          rw drafted (draft (number_or_zero-some metadata.unpublished_version given) given)
      | inr published ↦
          let given = rw published at h in
          rw published (elim (Bool-cases (exceeds latest (number_or_zero previous))) [
            | inl more ↦
                let counts = rw more at given in
                rw more
                  (newer published (number_or_zero-some metadata.latest_version counts) counts more)
            | inr old ↦ absurd (not_truthy_zero (rw old at given))
          ])
    ]

-- And what is publishable is what it computes.
version_to_publish-IsPublishable :
    (previous : Option Number) (metadata : ElementMetadata) (version : Number)
    → IsPublishable previous metadata version
    → version_to_publish previous metadata ≡ version
unfolding version_to_publish
version_to_publish-IsPublishable previous metadata version (draft e h) =
    let drafted : is_truthy metadata.unpublished_version ≡ true = ap is_truthy e ∙ h in
    rw drafted (number_or_zero-given metadata.unpublished_version version e h)
version_to_publish-IsPublishable previous metadata version (newer none_ e h more) =
    let latest : number_or_zero metadata.latest_version ≡ version =
      number_or_zero-given metadata.latest_version version e h in
    let counts : exceeds (number_or_zero metadata.latest_version) (number_or_zero previous) ≡ true =
      ap (λ n. exceeds n (number_or_zero previous)) latest ∙ more in
    rw (none_, counts) latest

IsPublishable-truthy :
    (previous : Option Number) (metadata : ElementMetadata) (version : Number)
    → IsPublishable previous metadata version
    → is_truthy (some version) ≡ true
IsPublishable-truthy previous metadata version (draft e h) = h
IsPublishable-truthy previous metadata version (newer none_ e h more) = h

-- Behind the new content, on a page that is still at its location: "Publish directly" requests the
-- publication of a version exactly if the server's answer has a publishable one, and then of that one;
-- otherwise the handler ends, with the error that it could not publish, and asks for nothing.
pub get_settled-IsPublishable :
    (at : Location) (previous : Option Number) (updated : Element) (s : State)
    → can_apply_mutation_result at s ≡ true
    → let t = get_settled at previous (resolved updated) s in
      ((version : Number) × IsPublishable previous updated.metadata version
        × (t.jobs ≡ publish_job at version ∷ [])
        × (t.state ≡ s))
      ⊎ (((version : Number) → ¬ IsPublishable previous updated.metadata version)
          × (t.jobs ≡ [])
          × (t.state ≡ record s { saving = false; error = label "elements.error.publishDirectly" }))
unfolding get_settled get_error_message
get_settled-IsPublishable at previous updated s applies =
    let version : Number = version_to_publish previous updated.metadata in
    let mounted : s.mounted ≡ true = ground arith in
    elim (Bool-cases (is_truthy (some version))) [
      | inl found ↦ inl (
        version,
        IsPublishable-version_to_publish previous updated.metadata found,
        ground arith,
        ground arith,
      )
      | inr missing ↦ inr (
        λ other publishable.
            let same =
              version_to_publish-IsPublishable previous updated.metadata other publishable in
            let truthy = IsPublishable-truthy previous updated.metadata other publishable in
            false-ne-true (sym missing ∙ ap (λ (n : Number). is_truthy (some n)) same ∙ truthy),
        ground arith,
        ground arith,
      )
    ]
  where
    false-ne-true : false ≢ true
    false-ne-true e = cc
