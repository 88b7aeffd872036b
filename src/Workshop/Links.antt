-- ===== src/Workshop/Links.antt =====
-- A link reads back: crates/workshop-parse/src/lib.rs, `workshop_url` and its readers.
use magpie.Prelude.{ℕ, ◌≡◌, Bool, true, ◌++◌, Text, codes, decimal, is_ascii_digit}

module _ (is_digit : ℕ → Bool) (ascii : (c : ℕ) → is_ascii_digit c ≡ true → is_digit c ≡ true) where
  -- a page's address, behind its first `f`
  abbrev behind_f : ℕ → Text
  behind_f id = codes "iledetails/?id=" ++ decimal id
