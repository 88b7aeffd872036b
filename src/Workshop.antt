-- ===== src/Workshop.antt =====
-- crates/workshop-parse/src/lib.rs: Workshop ids in links and presets. The regular expression is
-- `filedetails/\?id=(\d+)`; its `\d` is a Unicode digit, which is a parameter.
pub mod Escape
pub mod Links
mod Tests
use magpie.Prelude.{
  ℕ, zero, suc, ◌+◌, ◌-◌, ◌^◌, Bool, true, false, Option, none, some, List, [], ◌∷◌, ◌++◌, Text,
  codes, strip_prefix, is_empty, parse_unsigned, decimal, length, ◌==◌, if◌then◌else◌,
}

abbrev pub link_prefix : Text
link_prefix = codes "filedetails/?id="

unfoldable pub workshop_url : ℕ → Text
workshop_url id = codes "https://steamcommunity.com/sharedfiles/filedetails/?id=" ++ decimal id

unfoldable pub parse_u64 : Text → Option ℕ
parse_u64 s = parse_unsigned (2 ^ 64 - 1) s

unfoldable pub escape_char : ℕ → Text
escape_char c =
    if c == b'&'
    then codes "&amp;"
    else if c == b'<'
    then codes "&lt;"
    else if c == b'>'
    then codes "&gt;"
    else if c == b'"'
    then codes "&quot;"
    else if c == 39
    then codes "&#39;"
    else c ∷ []

unfoldable pub escape_html : Text → Text
unfolding escape_char
escape_html [] = []
escape_html (c ∷ s) = escape_char c ++ escape_html s

module _ (is_digit : ℕ → Bool) where
  -- as many digits as there are
  unfoldable pub digits : Text → Text
  digits [] = []
  digits (c ∷ s) = let rest = digits s in if is_digit c then c ∷ rest else []

  -- a match that starts here, by what it captures
  unfoldable pub match_here : Text → Option Text
  unfolding digits
  match_here s = elim (strip_prefix link_prefix s) [
    | none ↦ none
    | some after ↦ if is_empty (digits after) then none else some (digits after)
  ]

  -- `captures`: the leftmost match
  unfoldable pub first_capture : Text → Option Text
  unfolding match_here
  first_capture [] = none
  first_capture (c ∷ s) =
      let later = first_capture s in
      elim (match_here (c ∷ s)) [ some found ↦ some found | none ↦ later ]

  -- `captures_iter`: the number is what is left of a match
  unfoldable pub captures : ℕ → Text → List Text
  unfolding match_here
  captures skip [] = []
  captures (suc skip) (c ∷ s) = captures skip s
  captures zero (c ∷ s) =
      let later = captures zero s in
      elim (match_here (c ∷ s)) [
        | none ↦ later
        | some found ↦ found ∷ captures (length link_prefix + length found - 1) s
      ]

  abbrev parsed : Option Text → Option ℕ
  parsed none = none
  parsed (some found) = parse_u64 found

  unfoldable pub extract_single_id : Text → Option ℕ
  unfolding first_capture parse_u64
  extract_single_id url = parsed (first_capture url)

  unfoldable pub parse_all : List Text → List ℕ
  unfolding parse_u64
  parse_all [] = []
  parse_all (found ∷ l) =
      let rest = parse_all l in elim (parse_u64 found) [ none ↦ rest | some id ↦ id ∷ rest ]

  unfoldable pub parse_preset_html : Text → List ℕ
  unfolding captures parse_all
  parse_preset_html html = parse_all (captures 0 html)
