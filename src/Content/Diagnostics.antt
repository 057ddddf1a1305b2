-- ===== src/Content/Diagnostics.antt =====
-- `diagnosticRange` of web/src/features/elements/contentDiagnostics.ts: where the editor marks a
-- diagnostic. A document is the lengths of its lines, of which there is at least one.
use cassem.Base.{
  ℕ, zero, suc, ◌+◌, ◌-◌, ◌≤◌, ◌<◌, ◌≡◌, ◌⊎◌, inl, inr, Option, none, some, List, [], ◌∷◌, min, max,
  length, arith, ◌==◌, if◌then◌else◌, Bool-cases, ltb, ltb→lt,
}
use cassem.Content.Validation.{ContentDiagnostic}

-- A line's first offset and the offset of its end; a line ends one offset before the next begins.
pub record Line : Type 0 where
  pub from : ℕ
  pub to : ℕ

-- `state.doc.line(n)` by an index from 0, for a document that begins at this offset.
abbrev pub line_at : ℕ → ℕ → List ℕ → Line
line_at offset index [] = record { from = offset; to = offset }
line_at offset zero (size ∷ sizes) = record { from = offset; to = offset + size }
line_at offset (suc index) (size ∷ sizes) = line_at (offset + size + 1) index sizes

-- The offset of the document's end.
abbrev pub end_of : ℕ → List ℕ → ℕ
end_of offset [] = offset
end_of offset (size ∷ []) = offset + size
end_of offset (size ∷ sizes) = end_of (offset + size + 1) sizes

-- `value || 1`, and `value || fallback`.
abbrev pub given_or : Option ℕ → ℕ → ℕ
given_or none fallback = fallback
given_or (some value) fallback = if value == 0 then fallback else value

pub record Range : Type 0 where
  pub from : ℕ
  pub to : ℕ

-- The range in a line.
unfoldable pub range_in : Line → ContentDiagnostic → Range
range_in line item =
    let column = max 1 (given_or item.column 1) in
    let from = min (line.from + column - 1) line.to in
    let size = given_or item.length (max 1 (line.to - from)) in
    let to = min line.to (from + size) in record { from = from; to = max to (from + 1) }

unfoldable pub diagnostic_range : List ℕ → ContentDiagnostic → Range
unfolding range_in
diagnostic_range sizes item =
    let number = max 1 (min (given_or item.line 1) (length sizes)) in
    range_in (line_at 0 (number - 1) sizes) item

-- A range of at least one character that begins in a line, and ends in it unless it begins at its end.
abbrev pub IsIn : Line → Range → Type 0
IsIn line range =
    (line.from ≤ range.from)
    × (range.from < range.to)
    × ((range.to ≤ line.to) ⊎ ((range.from ≡ line.to) × (range.to ≡ line.to + 1)))

given_or-positive : (value : Option ℕ) (fallback : ℕ) → 1 ≤ fallback → 1 ≤ given_or value fallback
given_or-positive none fallback h = h
given_or-positive (some value) fallback h = ground arith

range-bounds :
    (a b c size : ℕ)
    → a ≤ b
    → 1 ≤ c
    → 1 ≤ size
    → let from = min (a + c - 1) b in
      let to = max (min b (from + size)) (from + 1) in
      (a ≤ from) × (from < to) × ((to ≤ b) ⊎ ((from ≡ b) × (to ≡ b + 1)))
range-bounds a b c size h k l = elim (Bool-cases (ltb (min (a + c - 1) b) b)) [
  | inl before ↦
      let lt = ltb→lt (min (a + c - 1) b) b before in
      (omega (arith, lt), omega (arith, lt), inl (omega (arith, lt)))
  | inr at_end ↦
      let ge : b ≤ min (a + c - 1) b = ground arith in
      (omega (arith, ge), omega (arith, ge), inr (omega (arith, ge), omega (arith, ge)))
]

range_in-IsIn :
    (line : Line) (item : ContentDiagnostic) → line.from ≤ line.to → IsIn line (range_in line item)
unfolding range_in
range_in-IsIn line item h =
    let column = max 1 (given_or item.column 1) in
    let from = min (line.from + column - 1) line.to in
    range-bounds line.from line.to column (given_or item.length (max 1 (line.to - from))) h
      (omega arith) (given_or-positive item.length (max 1 (line.to - from)) (omega arith))

end_of-cons : (offset size : ℕ) (sizes : List ℕ) → offset + size ≤ end_of offset (size ∷ sizes)
end_of-cons offset size [] = omega arith
end_of-cons offset size (next ∷ sizes) = omega (arith, end_of-cons (offset + size + 1) next sizes)

line_at-order :
    (offset index : ℕ) (sizes : List ℕ)
    → (line_at offset index sizes).from ≤ (line_at offset index sizes).to
line_at-order offset index [] = omega arith
line_at-order offset zero (size ∷ sizes) = omega arith
line_at-order offset (suc index) (size ∷ sizes) = line_at-order (offset + size + 1) index sizes

line_at-end :
    (offset index : ℕ) (sizes : List ℕ)
    → index < length sizes
    → (line_at offset index sizes).to ≤ end_of offset sizes
line_at-end offset index [] h = omega arith
line_at-end offset zero (size ∷ sizes) h = end_of-cons offset size sizes
line_at-end offset (suc index) (size ∷ []) h = omega arith
line_at-end offset (suc index) (size ∷ next ∷ sizes) h =
    line_at-end (offset + size + 1) index (next ∷ sizes) (omega arith)

-- The line that is marked: that of the diagnostic, or the nearest that there is.
abbrev pub marked_line : List ℕ → ContentDiagnostic → Line
marked_line sizes item = line_at 0 (max 1 (min (given_or item.line 1) (length sizes)) - 1) sizes

-- Whatever place a diagnostic names, the marked range in a document with a line has at least one
-- character and begins in a line of the document, which is the named one or the nearest; it ends in
-- that line too, unless it begins at the line's end, where it covers the one offset behind.
pub diagnostic_range-IsIn :
    (sizes : List ℕ) (item : ContentDiagnostic)
    → 1 ≤ length sizes
    → IsIn (marked_line sizes item) (diagnostic_range sizes item)
      × ((marked_line sizes item).to ≤ end_of 0 sizes)
unfolding diagnostic_range
diagnostic_range-IsIn sizes item some_line =
    let index = max 1 (min (given_or item.line 1) (length sizes)) - 1 in
    (
      range_in-IsIn (marked_line sizes item) item (line_at-order 0 index sizes),
      line_at-end 0 index sizes (omega (arith, given_or-positive item.line 1 (omega arith))),
    )
