-- ===== src/Controller/ArmaConfig/Quoting.antt =====
-- A reader of the strings and string arrays of a rendered file, which `escape` and `string_array`
-- of services/controller/src/arma_config.rs write. A reader of the file ends a string at a quote that is not doubled.
use mathlib.Core.Option
use mathlib.Core.List.{append_assoc}
use magpie.Prelude.{
  ℕ, zero, suc, ◌<◌, ◌≡◌, refl, ap, ◌∙◌, arith, Bool, true, false, Bool-cases, inl, inr, Option,
  none, some, List, [], ◌∷◌, ◌++◌, map, length, length-append, Text, codes, join, replace,
  replace-one, ◌==◌, if◌then◌else◌,
}
use magpie.Controller.ArmaConfig.Render.{escape, quoted, string_array}

-- behind the opening quote; whether the character before is a quote that is not taken yet
unfoldable read_body : Bool → Text → Option (Text × Text)
read_body false [] = none
read_body true [] = some ([], [])
read_body false (c ∷ s) =
    let shut = read_body true s in
    let kept = Option.map (λ (w, rest). (c ∷ w, rest)) (read_body false s) in
    if b'"' == c then shut else kept
read_body true (c ∷ s) =
    let kept = Option.map (λ (w, rest). (b'"' ∷ w, rest)) (read_body false s) in
    if b'"' == c then kept else some ([], c ∷ s)

-- a quoted string, and what is behind it
unfoldable pub read_string : Text → Option (Text × Text)
unfolding read_body
read_string [] = none
read_string (c ∷ s) = if b'"' == c then read_body false s else none

-- behind one item: the end, or a comma and more items
unfoldable read_more :
    (Text → Option (List Text × Text)) → Option (Text × Text) → Option (List Text × Text)
read_more items none = none
read_more items (some (w, [])) = none
read_more items (some (w, c ∷ s)) =
    if c == b','
    then Option.map (λ (ws, rest). (w ∷ ws, rest)) (items s)
    else if c == b'}'
    then some (w ∷ [], s)
    else none

-- the items of an array, no more than the fuel
unfoldable read_items : ℕ → Text → Option (List Text × Text)
unfolding read_more read_string
read_items zero s = none
read_items (suc n) s = read_more (read_items n) (read_string s)

unfoldable read_open : Text → Option (List Text × Text)
unfolding read_items
read_open [] = none
read_open (c ∷ s) = if c == b'}' then some ([], s) else read_items (length (c ∷ s)) (c ∷ s)

-- an array of strings, and what is behind it
unfoldable pub read_array : Text → Option (List Text × Text)
unfolding read_open
read_array [] = none
read_array (c ∷ s) = if c == b'{' then read_open s else none

-- whether a text goes on with a quote
abbrev pub starts_quoted : Text → Bool
starts_quoted [] = false
starts_quoted (c ∷ s) = b'"' == c

escape-cons :
    (c : ℕ) (s : Text)
    → escape (c ∷ s) ≡ (if b'"' == c then b'"' ∷ b'"' ∷ escape s else c ∷ escape s)
unfolding escape
escape-cons c s = replace-one b'"' c (b'"' ∷ b'"' ∷ []) s

read_end : (rest : Text) → starts_quoted rest ≡ false → read_body true rest ≡ some ([], rest)
unfolding read_body
read_end [] h = refl
read_end (c ∷ s) h = rw h refl

read_body-escape :
    (s rest : Text)
    → starts_quoted rest ≡ false
    → read_body false (escape s ++ b'"' ∷ rest) ≡ some (s, rest)
unfolding read_body replace
read_body-escape [] rest h = unfold escape in read_end rest h
read_body-escape (c ∷ s) rest h = elim (Bool-cases (b'"' == c)) [
  | inl same ↦ rw (escape-cons c s, same, read_body, read_body-escape s rest h) (ground arith)
  | inr differs ↦
      rw (escape-cons c s, differs, read_body, read_body-escape s rest h) (rw differs refl)
]

-- A string that is written quoted reads back as itself, whatever characters it has, if what
-- follows it does not start with a quote.
pub read_string-quoted :
    (s rest : Text) → starts_quoted rest ≡ false → read_string (quoted s ++ rest) ≡ some (s, rest)
unfolding read_string quoted
read_string-quoted s rest h =
    rw (append_assoc (escape s) (b'"' ∷ []) rest) (read_body-escape s rest h)

-- the items behind the opening brace, with what follows the array
read_items-join :
    (n : ℕ) (w : Text) (ws : List Text) (rest : Text)
    → length ws < n
    → read_items n (join (codes ",") (map quoted (w ∷ ws)) ++ b'}' ∷ rest) ≡ some (w ∷ ws, rest)
unfolding read_items read_more join codes
read_items-join zero w ws rest h = absurd (omega arith)
read_items-join (suc n) w [] rest h = rw (read_string-quoted w (b'}' ∷ rest) refl) refl
read_items-join (suc n) w (v ∷ ws) rest h =
    rw
      (
        append_assoc (quoted w) (b',' ∷ join (codes ",") (map quoted (v ∷ ws))) (b'}' ∷ rest),
        read_string-quoted w (b',' ∷ (join (codes ",") (map quoted (v ∷ ws)) ++ b'}' ∷ rest)) refl,
        read_items-join n v ws rest (omega arith),
      )
      refl

-- an array has more characters than further items
length-join :
    (w : Text) (ws : List Text) → length ws < length (join (codes ",") (map quoted (w ∷ ws)))
unfolding join codes quoted
length-join w [] = omega arith
length-join w (v ∷ ws) =
    rw (length-append (quoted w) (b',' ∷ join (codes ",") (map quoted (v ∷ ws))))
      (let later = length-join v ws in omega arith)

-- the first item's opening quote
join-opens :
    (w : Text) (ws : List Text)
    → (tail : Text) × (join (codes ",") (map quoted (w ∷ ws)) ≡ b'"' ∷ tail)
unfolding join quoted
join-opens w [] = (_, refl)
join-opens w (v ∷ ws) = (_, refl)

read_open-items : (s tail : Text) → s ≡ b'"' ∷ tail → read_open s ≡ read_items (length s) s
unfolding read_open
read_open-items s tail e = rw e refl

-- An array of strings that is written reads back as the same strings in the same order, whatever
-- characters they have and whatever text follows the array.
pub read_array-string_array :
    (ss : List Text) (rest : Text) → read_array (string_array ss ++ rest) ≡ some (ss, rest)
unfolding read_array string_array
read_array-string_array [] rest = unfold codes read_open in refl
read_array-string_array (w ∷ ws) rest =
    let items = join (codes ",") (map quoted (w ∷ ws)) in
    let (tail, opens) = join-opens w ws in
    rw (append_assoc items (b'}' ∷ []) rest) (
      read_open-items (items ++ b'}' ∷ rest) (tail ++ b'}' ∷ rest)
        (ap (λ s. s ++ b'}' ∷ rest) opens)
      ∙ read_items-join _ w ws rest
          (rw (length-append items (b'}' ∷ rest)) (let e = length-join w ws in omega arith)))
