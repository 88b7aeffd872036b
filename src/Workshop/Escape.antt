-- ===== src/Workshop/Escape.antt =====
-- What `escape_html` does to a text: crates/workshop-parse/src/lib.rs.
use magpie.Prelude.{
  ℕ, zero, suc, ◌≡◌, refl, ◌∙◌, ap, Bool, true, false, not, ◌||◌, none, some, [], ◌∷◌, ◌++◌, Text,
  codes, strip_prefix, ◌==◌, if◌then◌else◌, all, Bool-cases, inl, inr, ==_iff, and-cases, subst,
  sym,
}
use magpie.Workshop.{escape_char, escape_html}

-- The characters that mark up HTML, but for the ampersand of a character reference.
unfoldable pub is_plain : ℕ → Bool
is_plain c = not (c == b'<' || c == b'>' || c == b'"' || c == 39)

-- The specification: a reader of HTML takes each of the five references for its character. The
-- number is what is left of a reference.
unfoldable pub unescape : ℕ → Text → Text
unescape skip [] = []
unescape (suc k) (c ∷ s) = unescape k s
unescape zero (c ∷ s) =
    let amp = b'&' ∷ unescape 4 s in
    let lt = b'<' ∷ unescape 3 s in
    let gt = b'>' ∷ unescape 3 s in
    let quot = b'"' ∷ unescape 5 s in
    let apos = 39 ∷ unescape 4 s in
    let kept = c ∷ unescape 0 s in
    if c == b'&'
    then elim (strip_prefix (codes "amp;") s) [
      | some _ ↦ amp
      | none ↦ elim (strip_prefix (codes "lt;") s) [
        | some _ ↦ lt
        | none ↦ elim (strip_prefix (codes "gt;") s) [
          | some _ ↦ gt
          | none ↦ elim (strip_prefix (codes "quot;") s) [
            | some _ ↦ quot
            | none ↦ elim (strip_prefix (codes "#39;") s) [ some _ ↦ apos | none ↦ kept ]
          ]
        ]
      ]
    ]
    else kept

-- what a character becomes, and that it reads back
abbrev IsEscaped : ℕ → Text → Text → Type 0
IsEscaped c s e = (unescape 0 (e ++ s) ≡ c ∷ unescape 0 s) × (all is_plain e ≡ true)

unescape-kept : (c : ℕ) (s : Text) → (c == b'&') ≡ false → unescape 0 (c ∷ s) ≡ c ∷ unescape 0 s
unfolding unescape
unescape-kept c s no_amp = rw (no_amp, unescape) refl

module _ (c : ℕ) where
  escape_char_kept :
      (c == b'&') ≡ false
      → (c == b'<') ≡ false
      → (c == b'>') ≡ false
      → (c == b'"') ≡ false
      → (c == 39) ≡ false
      → escape_char c ≡ c ∷ []
  unfolding escape_char
  escape_char_kept no_amp no_lt no_gt no_quot no_apos =
      rw (no_amp, no_lt, no_gt, no_quot, no_apos, escape_char) refl

  is_plain_kept :
      (c == b'<') ≡ false
      → (c == b'>') ≡ false
      → (c == b'"') ≡ false
      → (c == 39) ≡ false
      → all is_plain (c ∷ []) ≡ true
  unfolding is_plain
  is_plain_kept no_lt no_gt no_quot no_apos = rw (no_lt, no_gt, no_quot, no_apos) refl

escape_char-IsEscaped : (c : ℕ) (s : Text) → IsEscaped c s (escape_char c)
unfolding escape_char unescape strip_prefix codes is_plain
escape_char-IsEscaped c s = elim (Bool-cases (c == b'&')) [
  | inl is ↦ rw ((==_iff c b'&').0 is) (refl, refl)
  | inr no_amp ↦ elim (Bool-cases (c == b'<')) [
    | inl is ↦ rw ((==_iff c b'<').0 is) (refl, refl)
    | inr no_lt ↦ elim (Bool-cases (c == b'>')) [
      | inl is ↦ rw ((==_iff c b'>').0 is) (refl, refl)
      | inr no_gt ↦ elim (Bool-cases (c == b'"')) [
        | inl is ↦ rw ((==_iff c b'"').0 is) (refl, refl)
        | inr no_quot ↦ elim (Bool-cases (c == 39)) [
          | inl is ↦ rw ((==_iff c 39).0 is) (refl, refl)
          | inr no_apos ↦
              subst (IsEscaped c s) (sym (escape_char_kept c no_amp no_lt no_gt no_quot no_apos))
                (unescape-kept c s no_amp, is_plain_kept c no_lt no_gt no_quot no_apos)
        ]
      ]
    ]
  ]
]

all-append : (p : ℕ → Bool) (s t : Text) → all p s ≡ true → all p t ≡ true → all p (s ++ t) ≡ true
all-append p [] t hs ht = ht
all-append p (c ∷ s) t hs ht =
    let (first, rest) = and-cases (p c) (all p s) hs in rw first (all-append p s t rest ht)

-- Escaped text has no angle bracket and no quote, and a reader of HTML gets the text back that was
-- escaped, whatever characters it has.
pub unescape-escape_html :
    (s : Text) → (unescape 0 (escape_html s) ≡ s) × (all is_plain (escape_html s) ≡ true)
unfolding escape_html unescape
unescape-escape_html [] = (refl, refl)
unescape-escape_html (c ∷ s) =
    let (reads, plain) = unescape-escape_html s in
    let (one, first) = escape_char-IsEscaped c (escape_html s) in
    (one ∙ ap (λ t. c ∷ t) reads, all-append is_plain (escape_char c) (escape_html s) first plain)
