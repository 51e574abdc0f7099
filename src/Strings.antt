-- ===== src/Strings.antt =====
-- The functions of Go's packages strings, bufio and unicode that the collectors call, on the code
-- points of a text that is valid UTF-8.
pub mod Split
pub mod Fields
pub mod Trim
pub mod Scan
pub mod Slice
use nadi_agent.Prelude.{
  ℕ, zero, suc, ◌+◌, Bool, true, false, ◌&&◌, ◌||◌, not, Option, none, some, List, [], ◌∷◌, ◌++◌,
  Runes, codes, length, take, drop, leb, ◌==◌, if◌then◌else◌, map,
}

-- strings.HasPrefix
unfoldable pub has_prefix : Runes → Runes → Bool
has_prefix s [] = true
has_prefix [] (p ∷ ps) = false
has_prefix (c ∷ s) (p ∷ ps) = c == p && has_prefix s ps

-- strings.Contains
unfoldable pub contains : Runes → Runes → Bool
unfolding has_prefix
contains [] sub = has_prefix [] sub
contains (c ∷ s) sub = has_prefix (c ∷ s) sub || contains s sub

-- strings.Index, with `none` for -1; positions are counted in runes.
unfoldable pub index : Runes → Runes → Option ℕ
unfolding has_prefix
index [] sub = if has_prefix [] sub then some 0 else none
index (c ∷ s) sub =
    let later : Option ℕ = elim (index s sub) [ none ↦ none | some i ↦ some (suc i) ] in
    if has_prefix (c ∷ s) sub then some 0 else later

-- strings.IndexFunc
unfoldable pub index_func : (ℕ → Bool) → Runes → Option ℕ
index_func p [] = none
index_func p (c ∷ s) =
    let later : Option ℕ = elim (index_func p s) [ none ↦ none | some i ↦ some (suc i) ] in
    if p c then some 0 else later

-- s[from:to]
abbrev pub slice : ℕ → ℕ → Runes → Runes
slice from to s = drop from (take to s)

abbrev pub on_first : ℕ → List Runes → List Runes
on_first c [] = (c ∷ []) ∷ []
on_first c (l ∷ ls) = (c ∷ l) ∷ ls

-- strings.Split at a separator of one rune: one part more than there are separators.
unfoldable pub split : ℕ → Runes → List Runes
split sep [] = [] ∷ []
split sep (c ∷ s) = let parts = split sep s in if c == sep then [] ∷ parts else on_first c parts

-- unicode.IsSpace
unfoldable pub is_space : ℕ → Bool
is_space c =
    (leb 0x9 c && leb c 0xD)
    || (c == 0x20
        || (c == 0x85
            || (c == 0xA0
                || (c == 0x1680
                    || ((leb 0x2000 c && leb c 0x200A)
                        || (c == 0x2028
                            || (c == 0x2029 || (c == 0x202F || (c == 0x205F || c == 0x3000)))))))))

unfoldable pub trim_left : Runes → Runes
unfolding is_space
trim_left [] = []
trim_left (c ∷ s) = if is_space c then trim_left s else c ∷ s

-- Without the spaces at the end: a text of nothing but spaces is left empty.
unfoldable pub trim_right : Runes → Runes
unfolding is_space
trim_right [] = []
trim_right (c ∷ s) = elim (trim_right s) [
  | [] ↦ if is_space c then [] else c ∷ []
  | d ∷ t ↦ c ∷ d ∷ t
]

-- strings.TrimSpace
unfoldable pub trim_space : Runes → Runes
unfolding trim_left trim_right
trim_space s = trim_right (trim_left s)

-- What the loop of FieldsFunc has read, from the end of the text: the fields behind, and whether the
-- next rune belongs to the first of them.
abbrev pub add_rune : ℕ → List Runes × Bool → List Runes × Bool
add_rune c ([], true) = ((c ∷ []) ∷ [], true)
add_rune c (f ∷ fs, true) = ((c ∷ f) ∷ fs, true)
add_rune c (fs, false) = ((c ∷ []) ∷ fs, true)

unfoldable pub fields_from : (ℕ → Bool) → Runes → List Runes × Bool
fields_from p [] = ([], false)
fields_from p (c ∷ s) =
    let rest = fields_from p s in if p c then (rest.0, false) else add_rune c rest

-- strings.FieldsFunc: the longest runs of runes between those that `p` names, none of them empty.
unfoldable pub fields_func : (ℕ → Bool) → Runes → List Runes
unfolding fields_from
fields_func p s = (fields_from p s).0

-- strings.Fields
unfoldable pub fields : Runes → List Runes
unfolding fields_func is_space
fields s = fields_func is_space s

-- '0' <= c && c <= '9'
abbrev pub is_digit : ℕ → Bool
is_digit c = leb b'0' c && leb c b'9'

-- A digit or a point.
abbrev pub is_numeric : ℕ → Bool
is_numeric c = is_digit c || c == b'.'

abbrev pub rune_at : ℕ → Runes → ℕ
rune_at i [] = 0
rune_at zero (c ∷ s) = c
rune_at (suc i) (c ∷ s) = rune_at i s

-- `for start > 0 && p(s[start-1]) { start-- }`
unfoldable pub back_while : (ℕ → Bool) → Runes → ℕ → ℕ
back_while p s zero = zero
back_while p s (suc k) = let back = back_while p s k in if p (rune_at k s) then back else suc k

-- How many runes from the first on satisfy `p`.
unfoldable pub count_while : (ℕ → Bool) → Runes → ℕ
count_while p [] = 0
count_while p (c ∷ s) = let more = count_while p s in if p c then suc more else 0
