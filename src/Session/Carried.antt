-- ===== src/Session/Carried.antt =====
-- The headers of a request of web/src/lib/api.ts.
use cassem.Base.{
  ◌≡◌, refl, Option, none, some, [], ◌∷◌, String, if◌then◌else◌, arith, eq_iff, Bool-cases,
  Option-cases, ◌∙◌, inl, inr,
}
use cassem.Session.Storage.{Store, get_session}
use cassem.Session.Api.{Headers, set_header, from_entries, normalize_headers, request_headers}
use text.Mathlib.Text.{◌==◌}

abbrev pub find_header : String → Headers → Option String
find_header name [] = none
find_header name ((other, value) ∷ headers) =
    let rest = find_header name headers in if other == name then some value else rest

-- What a caller gives for a name: the last of its entries of this name.
abbrev pub last_given : String → Headers → Option String
last_given name [] = none
last_given name ((other, value) ∷ entries) = elim (last_given name entries) [
  | some later ↦ some later
  | none ↦ if other == name then some value else none
]

abbrev pub given : String → Option Headers → Option String
given name none = none
given name (some entries) = last_given name entries

abbrev or_else : Option String → Option String → Option String
or_else none other = other
or_else (some value) other = some value

find_header-set_header :
    (name value other : String) (headers : Headers)
    → find_header other (set_header name value headers)
      ≡ (if name == other then some value else find_header other headers)
unfolding set_header
find_header-set_header name value other [] = refl
find_header-set_header name value other ((key, old) ∷ headers) = elim (Bool-cases (key == name)) [
  | inl same ↦ rw same (ground (arith, eq_iff key name))
  | inr differs ↦ rw differs (
      ground (
        arith,
        eq_iff key name,
        eq_iff key other,
        eq_iff name other,
        find_header-set_header name value other headers,
      ))
]

find_header-from_entries :
    (name : String) (headers entries : Headers)
    → find_header name (from_entries headers entries)
      ≡ or_else (last_given name entries) (find_header name headers)
find_header-from_entries name headers [] = refl
find_header-from_entries name headers ((other, value) ∷ entries) =
    find_header-from_entries name (set_header other value headers) entries
    ∙ elim (Option-cases (last_given name entries)) [
      | inl none_later ↦
          rw (none_later, find_header-set_header other value name headers)
            (elim (Bool-cases (other == name)) [
              | inl same ↦ rw same refl
              | inr differs ↦ rw differs refl
            ])
      | inr (later, e) ↦ rw e refl
    ]

find_header-normalize_headers :
    (name : String) (headers : Option Headers)
    → find_header name (normalize_headers headers) ≡ given name headers
unfolding normalize_headers
find_header-normalize_headers name none = refl
find_header-normalize_headers name (some entries) =
    find_header-from_entries name [] entries ∙ elim (Option-cases (last_given name entries)) [
      | inl e ↦ rw e refl
      | inr (value, e) ↦ rw e refl
    ]

-- A request accepts JSON, carries the stored session if there is one, and of every other name the value
-- that is last among the caller's entries of this name, and nothing else.
pub request_headers-find_header :
    (store : Store) (headers : Option Headers) (name : String)
    → find_header name (request_headers store headers) ≡ (
        if get_session store == ""
        then (if "Accept" == name then some "application/json" else given name headers)
        else if "X-CASSEM-SESSION" == name
        then some (get_session store)
        else if "Accept" == name
        then some "application/json"
        else given name headers)
unfolding request_headers
request_headers-find_header store headers name = elim (Bool-cases (get_session store == "")) [
  | inl no_session ↦ rw no_session (
      find_header-set_header "Accept" "application/json" name (normalize_headers headers)
      ∙ rw (find_header-normalize_headers name headers) refl)
  | inr session ↦
      rw
        (
          session,
          find_header-set_header "X-CASSEM-SESSION" (get_session store) name
              (set_header "Accept" "application/json" (normalize_headers headers)),
          find_header-set_header "Accept" "application/json" name (normalize_headers headers),
          find_header-normalize_headers name headers,
        )
        refl
]
