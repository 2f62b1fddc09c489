-- ===== src/EventLog/Xml/Escape.antt =====
-- `escape_xml` leaves no markup, and a reader of the five entities gets the text back.
use iso26430_6_asm_prototype.Base.{
  ℕ, ◌≡◌, ◌≢◌, refl, ap, ◌∙◌, ◌>>=◌, Result, ok, err, Option, none, some, [], ◌∷◌, ◌++◌, arith, All,
  All-append, ◌==◌, if◌then◌else◌, Text, text_eq, codes,
}
use iso26430_6_asm_prototype.EventLog.Xml.{escape_char, escape_xml}

-- The character of an entity, by the name between `&` and `;`.
entity : Text → Result ℕ
unfolding text_eq
entity name =
    if text_eq name (codes "amp")
    then ok b'&'
    else if text_eq name (codes "lt")
    then ok b'<'
    else if text_eq name (codes "gt")
    then ok b'>'
    else if text_eq name (codes "quot")
    then ok b'"'
    else if text_eq name (codes "apos")
    then ok b'\''
    else err "no such entity"

abbrev prepend : ℕ → Result Text → Result Text
prepend c read = do s ← read; ok (c ∷ s)

-- The reader goes from character to character; behind `&` it collects a name.
unescape_from : Option Text → Text → Result Text
unescape_from none [] = ok []
unescape_from (some name) [] = err "an entity has no end"
unescape_from none (c ∷ s) =
    let name = unescape_from (some []) s in
    let plain = prepend c (unescape_from none s) in if c == b'&' then name else plain
unescape_from (some name) (c ∷ s) =
    let closed = (do ch ← entity name; prepend ch (unescape_from none s)) in
    let longer = unescape_from (some (name ++ (c ∷ []))) s in if c == b';' then closed else longer

-- A `&` that does not begin one of the five entities is refused.
unfoldable pub unescape : Text → Result Text
unfolding unescape_from entity
unescape s = unescape_from none s

abbrev pub IsPlain : ℕ → Type 0
IsPlain c = (c ≢ b'<') × (c ≢ b'>') × (c ≢ b'"') × (c ≢ b'\'')

unescape-escape_char : (c : ℕ) (s : Text) → unescape (escape_char c ++ s) ≡ prepend c (unescape s)
unfolding escape_char unescape
unescape-escape_char c s = ground arith

escape_char-IsPlain : (c : ℕ) → All IsPlain (escape_char c)
unfolding escape_char
escape_char-IsPlain c = ground arith

-- The escaped text has none of `<`, `>`, `"` and `'`, and the reader of the five entities gets the text
-- back from it, so no two texts have one escaped form.
pub unescape-escape_xml : (s : Text) → All IsPlain (escape_xml s) × (unescape (escape_xml s) ≡ ok s)
unfolding escape_xml
unescape-escape_xml [] = (tt, unfold unescape in refl)
unescape-escape_xml (c ∷ s) =
    let (plain, same) = unescape-escape_xml s in
    (
      All-append IsPlain (escape_char c) (escape_xml s) (escape_char-IsPlain c) plain,
      unescape-escape_char c (escape_xml s) ∙ ap (prepend c) same,
    )
