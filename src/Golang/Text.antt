-- ===== src/Golang/Text.antt =====
-- What the services use of Go's `strings` package. A Go string is a list of bytes in UTF-8.
pub mod Laws
use finora.Base.{
  ℕ, zero, suc, ◌+◌, ◌-◌, ◌≤◌, ◌≡◌, Bool, true, false, ◌&&◌, ◌||◌, List, [], ◌∷◌, ◌++◌, Option,
  none, some, ltb, leb, ◌==◌, if◌then◌else◌, Text, length, drop,
}
use mathlib.Core.List.{reverse}

-- `a == b`
unfoldable pub text_eq : Text → Text → Bool
text_eq [] [] = true
text_eq (x ∷ xs) (y ∷ ys) = x == y && text_eq xs ys
text_eq _ _ = false

-- `a == ""`
abbrev pub is_empty : Text → Bool
is_empty [] = true
is_empty (_ ∷ _) = false

-- The length in bytes of the space at the head of a text, 0 where there is none: the characters
-- of `unicode.IsSpace`, encoded in UTF-8.
abbrev space_3 : ℕ → ℕ → ℕ → Bool
space_3 a b c =
    (a == 0xe1 && b == 0x9a && c == 0x80)
    || (a == 0xe2
        && b == 0x80
        && (c == 0xa8 || c == 0xa9 || c == 0xaf || (leb 0x80 c && leb c 0x8a)))
    || (a == 0xe2 && b == 0x81 && c == 0x9f)
    || (a == 0xe3 && b == 0x80 && c == 0x80)

abbrev space_2 : ℕ → ℕ → Bool
space_2 a b = a == 0xc2 && (b == 0x85 || b == 0xa0)

abbrev space_1 : ℕ → Bool
space_1 a = a == 0x20 || (leb 9 a && leb a 13)

-- Removes the spaces at the head.
trim_left : Text → Text
trim_left (a ∷ b ∷ c ∷ s) =
    let one = trim_left (b ∷ c ∷ s) in
    let two = trim_left (c ∷ s) in
    let three = trim_left s in
    if space_1 a
    then one
    else if space_2 a b
    then two
    else if space_3 a b c
    then three
    else a ∷ b ∷ c ∷ s
trim_left (a ∷ b ∷ []) =
    let one = trim_left (b ∷ []) in
    if space_1 a then one else if space_2 a b then [] else a ∷ b ∷ []
trim_left (a ∷ []) = if space_1 a then [] else a ∷ []
trim_left [] = []

-- Removes the spaces at the head of a text that is read from its end.
trim_right_reversed : Text → Text
trim_right_reversed (a ∷ b ∷ c ∷ s) =
    let one = trim_right_reversed (b ∷ c ∷ s) in
    let two = trim_right_reversed (c ∷ s) in
    let three = trim_right_reversed s in
    if space_1 a
    then one
    else if space_2 b a
    then two
    else if space_3 c b a
    then three
    else a ∷ b ∷ c ∷ s
trim_right_reversed (a ∷ b ∷ []) =
    let one = trim_right_reversed (b ∷ []) in
    if space_1 a then one else if space_2 b a then [] else a ∷ b ∷ []
trim_right_reversed (a ∷ []) = if space_1 a then [] else a ∷ []
trim_right_reversed [] = []

-- `strings.TrimSpace`
unfoldable pub trim_space : Text → Text
unfolding trim_left trim_right_reversed
trim_space s = reverse (trim_right_reversed (reverse (trim_left s)))

-- `strings.HasPrefix`
unfoldable pub has_prefix : Text → Text → Bool
has_prefix s [] = true
has_prefix [] (_ ∷ _) = false
has_prefix (x ∷ s) (y ∷ p) = x == y && has_prefix s p

-- `strings.TrimPrefix`
unfoldable pub trim_prefix : Text → Text → Text
unfolding has_prefix
trim_prefix s p = if has_prefix s p then drop (length p) s else s

-- `strings.HasSuffix`
unfoldable pub has_suffix : Text → Text → Bool
unfolding has_prefix
has_suffix s p = has_prefix (reverse s) (reverse p)

-- `strings.TrimSuffix`
unfoldable pub trim_suffix : Text → Text → Text
unfolding trim_prefix
trim_suffix s p = reverse (trim_prefix (reverse s) (reverse p))
