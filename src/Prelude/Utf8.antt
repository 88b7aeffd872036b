-- ===== src/Prelude/Utf8.antt =====
-- `String::from_utf8`: the text that bytes spell, if they are well-formed UTF-8.
use Prim.Native.Nat.{ℕ, zero, suc, ◌+◌, ◌-◌, ◌*◌}
use mathlib.Core.Path.{◌≡◌, refl}
use mathlib.Core.Bool.{Bool, not, ◌&&◌}
use mathlib.Core.Option
use mathlib.Core.Option.{Option, none, some}
use mathlib.Core.List.{List, [], ◌∷◌}
use magpie.Prelude.Tests.{leb, ltb, ◌==◌, if◌then◌else◌}
use magpie.Prelude.Strings.{Text}

-- a code point that is no surrogate, and could not be spelled with fewer bytes
is_scalar : ℕ → ℕ → Bool
is_scalar low v = leb low v && leb v 0x10ffff && not (leb 0xd800 v && leb v 0xdfff)

-- `need` is how many bytes the current code point still wants, `v` what it is so far, `low` the
-- least code point that wants so many bytes.
utf8_from : ℕ → ℕ → ℕ → List ℕ → Option Text
unfolding is_scalar
utf8_from need v low [] = if need == 0 then some [] else none
utf8_from zero v low (b ∷ s) =
    let one = Option.map (λ t. b ∷ t) (utf8_from 0 0 0 s) in
    let two = utf8_from 1 (b - 0xc0) 0x80 s in
    let three = utf8_from 2 (b - 0xe0) 0x800 s in
    let four = utf8_from 3 (b - 0xf0) 0x10000 s in
    if ltb b 0x80
    then one
    else if ltb b 0xc0
    then none
    else if ltb b 0xe0
    then two
    else if ltb b 0xf0
    then three
    else if ltb b 0xf8
    then four
    else none
utf8_from (suc k) v low (b ∷ s) =
    let v' = v * 64 + (b - 0x80) in
    let done = Option.map (λ t. v' ∷ t) (utf8_from 0 0 0 s) in
    let more = utf8_from k v' low s in
    if leb 0x80 b && ltb b 0xc0
    then (if k == 0 then (if is_scalar low v' then done else none) else more)
    else none

unfoldable pub from_utf8 : List ℕ → Option Text
unfolding utf8_from
from_utf8 s = utf8_from 0 0 0 s

from_utf8_tests :
    (from_utf8 (0x65 ∷ 0xc3 ∷ 0xa9 ∷ []) ≡ some (0x65 ∷ 0xe9 ∷ []))
    × (from_utf8 (0xc0 ∷ 0x80 ∷ []) ≡ none)
    × (from_utf8 (0xed ∷ 0xa0 ∷ 0x80 ∷ []) ≡ none)
unfolding from_utf8
from_utf8_tests = (refl, refl, refl)
