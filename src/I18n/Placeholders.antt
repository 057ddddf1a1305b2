-- ===== src/I18n/Placeholders.antt =====
-- What filling in the placeholders of a text means, said of the pieces that the text is made of.
use cassem.Base.{
  ◌≡◌, refl, ap, sym, ◌∙◌, Bool, true, false, ◌&&◌, Option, none, some, List, [], ◌∷◌, String, ◌==◌,
  arith, All, is_blank,
}
use Prim.Native.String.{◌++◌ as join}
use Prim.Native.Char.{Char, code}
use text.Mathlib.TextLemmas.{nil-append, cons-append, append_assoc, append-nil}
use cassem.I18n.Locale.{Params, expand, is_word, filled, Locale, translate, message_of}

-- A text is made of characters other than an opening brace, and of placeholders.
pub data Piece : Type 0 where
  plain : Char → Piece
  placeholder : String → Piece

abbrev pub is_name : String → Bool
is_name String.[] = true
is_name (String.◌∷◌ c text) = is_word (code c) && is_name text

abbrev pub IsPiece : Piece → Type 0
IsPiece (plain c) = (code c == b'{') ≡ false
IsPiece (placeholder name) = (is_name name ≡ true) × (is_blank name ≡ false)

abbrev pub written : List Piece → String
written [] = ""
written (plain c ∷ pieces) = String.◌∷◌ c (written pieces)
written (placeholder name ∷ pieces) = String.◌∷◌ "{" (join name (String.◌∷◌ "}" (written pieces)))

abbrev pub filled_in : Params → List Piece → String
filled_in params [] = ""
filled_in params (plain c ∷ pieces) = String.◌∷◌ c (filled_in params pieces)
filled_in params (placeholder name ∷ pieces) = join (filled params name) (filled_in params pieces)

join-char :
    (seen : String) (c : Char) (name : String)
    → join (join seen (String.◌∷◌ c "")) name ≡ join seen (String.◌∷◌ c name)
join-char seen c name =
    append_assoc seen (String.◌∷◌ c "") name
    ∙ ap (λ text. join seen text)
        (cons-append c "" name ∙ ap (λ text. String.◌∷◌ c text) (nil-append name))

-- Behind an opening brace, a word up to a closing brace is a placeholder.
expand-name :
    (params : Params) (seen name text : String)
    → is_name name ≡ true
    → is_blank (join seen name) ≡ false
    → expand params (some seen) (join name (String.◌∷◌ "}" text))
      ≡ join (filled params (join seen name)) (expand params none text)
unfolding expand
expand-name params seen String.[] text h k =
    let held : is_blank seen ≡ false = rw (append-nil seen) at k in
    rw (nil-append (String.◌∷◌ "}" text), append-nil seen, held) refl
expand-name params seen (String.◌∷◌ c name) text h k =
    let word : is_word (code c) ≡ true = ground arith in
    let same = join-char seen c name in
    rw (cons-append c name (String.◌∷◌ "}" text), word, sym same)
      (expand-name params (join seen (String.◌∷◌ c "")) name text (ground arith)
        (rw (sym same) at k))

expand-written :
    (params : Params) (pieces : List Piece)
    → All IsPiece pieces
    → expand params none (written pieces) ≡ filled_in params pieces
unfolding expand
expand-written params [] a = refl
expand-written params (plain c ∷ pieces) (h, a) =
    rw h (ap (λ text. String.◌∷◌ c text) (expand-written params pieces a))
expand-written params (placeholder name ∷ pieces) (h, a) =
    expand-name params "" name (written pieces) h.0 (rw (nil-append name) h.1)
    ∙ rw (nil-append name)
        (ap (λ text. join (filled params name) text) (expand-written params pieces a))

-- A text of a catalogue that is made of characters other than an opening brace and of placeholders is
-- shown with each placeholder replaced by the value of its parameter, and those without a parameter
-- left as they are.
pub translate-filled_in :
    (en_texts zh_cn_texts : String → Option String) (locale : Locale) (key : String)
    (params : Params) (pieces : List Piece)
    → All IsPiece pieces
    → message_of en_texts zh_cn_texts locale key ≡ written pieces
    → translate en_texts zh_cn_texts locale key params ≡ filled_in params pieces
unfolding translate
translate-filled_in en_texts zh_cn_texts locale key params pieces a e =
    ap (λ text. expand params none text) e ∙ expand-written params pieces a
