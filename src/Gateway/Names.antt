-- ===== src/Gateway/Names.antt =====
-- services/gateway/src/service.rs, `validate_k8s_name`: the names that a server may have.
use magpie.Prelude.{
  ℕ, ◌≤◌, ◌≡◌, refl, ◌↔◌, ◌⊎◌, arith, Bool, true, false, not, ◌||◌, Option, none, some, [], ◌∷◌,
  Text, codes, all, All, length, byte_len, ltb, ◌==◌, is_ascii_lowercase, is_ascii_digit,
  is_ascii_alphanumeric, if◌then◌else◌,
}
use magpie.Prelude.Prog.{Result, ok, err}

abbrev pub is_label_char : ℕ → Bool
is_label_char c = is_ascii_lowercase c || is_ascii_digit c || c == b'-'

-- `chars().next()` and `chars().last()`
abbrev first_char : Text → Option ℕ
first_char [] = none
first_char (c ∷ s) = some c

abbrev pub last_char : Text → Option ℕ
last_char [] = none
last_char (c ∷ []) = some c
last_char (c ∷ d ∷ s) = last_char (d ∷ s)

-- `is_some_and(|c| c.is_ascii_alphanumeric())`
abbrev pub is_alnum : Option ℕ → Bool
is_alnum none = false
is_alnum (some c) = is_ascii_alphanumeric c

unfoldable pub validate_k8s_name : Text → Result Text (Unit {0})
validate_k8s_name name =
    if ltb 63 (byte_len name)
    then err (codes "must be 63 characters or fewer")
    else if not (all is_label_char name)
    then err (codes "must contain only lowercase letters, digits, and '-'")
    else if not (is_alnum (first_char name)) || not (is_alnum (last_char name))
    then err (codes "must start and end with a letter or digit")
    else ok tt

-- A lowercase letter or a digit.
abbrev pub IsLowerAlnum : ℕ → Type 0
IsLowerAlnum c = ((b'a' ≤ c) × (c ≤ b'z')) ⊎ ((b'0' ≤ c) × (c ≤ b'9'))

-- The DNS-1123 labels: letters of lower case, digits and inner hyphens, from 1 to 63 characters.
pub record IsDnsLabel (name : Text) : Type 0 where
  pub characters : All (λ c. IsLowerAlnum c ⊎ (c ≡ b'-')) name
  pub starts : (c : ℕ) × (first_char name ≡ some c) × IsLowerAlnum c
  pub ends : (c : ℕ) × (last_char name ≡ some c) × IsLowerAlnum c
  pub short : length name ≤ 63

is_label_char_iff : (c : ℕ) → (is_label_char c ≡ true) ↔ (IsLowerAlnum c ⊎ (c ≡ b'-'))
unfolding is_ascii_lowercase is_ascii_digit
is_label_char_iff c = ground arith

all_label_iff : (s : Text) → (all is_label_char s ≡ true) ↔ All (λ c. IsLowerAlnum c ⊎ (c ≡ b'-')) s
all_label_iff [] = (λ _. tt, λ _. refl)
all_label_iff (c ∷ s) = ground (arith, is_label_char_iff c, all_label_iff s)

-- a label is ASCII, so that its bytes are its characters
byte_len-label : (s : Text) → all is_label_char s ≡ true → byte_len s ≡ length s
unfolding byte_len is_ascii_lowercase is_ascii_digit
byte_len-label [] h = refl
byte_len-label (c ∷ s) h = ground (arith, byte_len-label s)

label_alnum :
    (c : ℕ) → IsLowerAlnum c ⊎ (c ≡ b'-') → is_ascii_alphanumeric c ≡ true → IsLowerAlnum c
unfolding is_ascii_alphanumeric is_ascii_lowercase is_ascii_digit
label_alnum c label h = ground arith

alnum_lower : (c : ℕ) → IsLowerAlnum c → is_ascii_alphanumeric c ≡ true
unfolding is_ascii_alphanumeric is_ascii_lowercase is_ascii_digit
alnum_lower c h = ground arith

-- the end characters of a label that are letters or digits
first_alnum :
    (s : Text)
    → All (λ c. IsLowerAlnum c ⊎ (c ≡ b'-')) s
    → is_alnum (first_char s) ≡ true
    → (c : ℕ) × (first_char s ≡ some c) × IsLowerAlnum c
first_alnum [] labels h = absurd (ground arith)
first_alnum (c ∷ s) (label, labels) h = (c, refl, label_alnum c label h)

last_alnum :
    (s : Text)
    → All (λ c. IsLowerAlnum c ⊎ (c ≡ b'-')) s
    → is_alnum (last_char s) ≡ true
    → (c : ℕ) × (last_char s ≡ some c) × IsLowerAlnum c
last_alnum [] labels h = absurd (ground arith)
last_alnum (c ∷ []) (label, labels) h = (c, refl, label_alnum c label h)
last_alnum (c ∷ d ∷ s) (label, labels) h = last_alnum (d ∷ s) labels h

is_alnum-some : (o : Option ℕ) (c : ℕ) → o ≡ some c → IsLowerAlnum c → is_alnum o ≡ true
is_alnum-some o c e h = rw e (alnum_lower c h)

abbrev checks : Bool → Bool → Bool → Text → Text → Text → Result Text (Unit {0})
checks a b c x y z = if a then err x else if b then err y else if c then err z else ok tt

-- three checks pass exactly if none refuses
checks_iff :
    (a b c : Bool) (x y z : Text)
    → (checks a b c x y z ≡ ok tt) ↔ ((a ≡ false) × (b ≡ false) × (c ≡ false))
checks_iff a b c x y z = ground arith

-- the three tests of a name
passes_iff :
    (name : Text)
    → (validate_k8s_name name ≡ ok tt) ↔ (
        (ltb 63 (byte_len name) ≡ false)
        × (not (all is_label_char name) ≡ false)
        × (not (is_alnum (first_char name)) || not (is_alnum (last_char name)) ≡ false))
unfolding validate_k8s_name
passes_iff name =
    checks_iff (ltb 63 (byte_len name)) (not (all is_label_char name))
      (not (is_alnum (first_char name)) || not (is_alnum (last_char name))) (codes _) (codes _)
      (codes _)

of_checks : (name : Text) → validate_k8s_name name ≡ ok tt → IsDnsLabel name
of_checks name h =
    let (short, characters, ends) = (passes_iff name).0 h in
    let label : all is_label_char name ≡ true = ground arith in
    let labels = (all_label_iff name).0 label in
    let same = byte_len-label name label in
    record {
      characters = labels;
      starts = first_alnum name labels (ground arith);
      ends = last_alnum name labels (ground arith);
      short = ground arith;
    }

-- A name passes exactly if it is a DNS-1123 label.
pub validate_k8s_name_iff : (name : Text) → (validate_k8s_name name ≡ ok tt) ↔ IsDnsLabel name
validate_k8s_name_iff name = (
  of_checks name,
  λ h.
      let label = (all_label_iff name).1 h.characters in
      let same = byte_len-label name label in
      let starts = is_alnum-some (first_char name) h.starts.0 h.starts.1 h.starts.2 in
      let ends = is_alnum-some (last_char name) h.ends.0 h.ends.1 h.ends.2 in
      let short = h.short in (passes_iff name).1 (ground arith, ground arith, ground arith),
)
