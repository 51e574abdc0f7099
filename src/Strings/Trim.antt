-- ===== src/Strings/Trim.antt =====
-- TrimSpace on texts without spaces at their ends.
use nadi_agent.Prelude.{ℕ, ◌≡◌, ◌≢◌, ◌∙◌, ap, refl, false, [], ◌∷◌, ◌++◌, Runes, All}
use nadi_agent.Strings.{is_space, trim_left, trim_right, trim_space}

abbrev pub NoSpaces : Runes → Type 0
NoSpaces s = All (λ c. is_space c ≡ false) s

trim_right-tail : (c : ℕ) (s : Runes) → s ≢ [] → trim_right s ≡ s → trim_right (c ∷ s) ≡ c ∷ s
unfolding trim_right
trim_right-tail c [] some_tail h = absurd (some_tail refl)
trim_right-tail c (d ∷ s) some_tail h = rw (h, trim_right) refl

trim_right-NoSpaces : (s : Runes) → NoSpaces s → trim_right s ≡ s
unfolding trim_right
trim_right-NoSpaces [] h = refl
trim_right-NoSpaces (c ∷ []) (hc, h) = rw hc refl
trim_right-NoSpaces (c ∷ d ∷ s) (hc, h) =
    trim_right-tail c (d ∷ s) (λ p. cc) (trim_right-NoSpaces (d ∷ s) h)

-- A text that does not end with a space.
pub IsEnded : Runes → Type 0
IsEnded s = (s ≢ []) × (trim_right s ≡ s)

pub NoSpaces-IsEnded : (s : Runes) → s ≢ [] → NoSpaces s → IsEnded s
unfolding IsEnded
NoSpaces-IsEnded s some_text h = (some_text, trim_right-NoSpaces s h)

pub append-IsEnded : (s t : Runes) → IsEnded t → IsEnded (s ++ t)
unfolding IsEnded
append-IsEnded [] t h = h
append-IsEnded (d ∷ s) t h =
    let (some_text, kept) = append-IsEnded s t h in
    ((λ p. cc), trim_right-tail d (s ++ t) some_text kept)

-- A text that starts with no space and ends with none.
pub trim_space-IsEnded :
    (c : ℕ) (s : Runes) → is_space c ≡ false → IsEnded (c ∷ s) → trim_space (c ∷ s) ≡ c ∷ s
unfolding trim_space IsEnded
trim_space-IsEnded c s hc (_, h) =
    let kept : trim_left (c ∷ s) ≡ c ∷ s = unfold trim_left in rw hc refl in ap trim_right kept ∙ h

pub trim_space-NoSpaces : (s : Runes) → NoSpaces s → trim_space s ≡ s
unfolding trim_space
trim_space-NoSpaces [] h = unfold trim_left in unfold trim_right in refl
trim_space-NoSpaces (c ∷ s) (hc, h) =
    let kept : trim_left (c ∷ s) ≡ c ∷ s = unfold trim_left in rw hc refl in
    ap trim_right kept ∙ trim_right-NoSpaces (c ∷ s) (hc, h)

-- A blank at the start goes.
pub trim_space-blank : (s : Runes) → trim_space (b' ' ∷ s) ≡ trim_space s
unfolding trim_space trim_left is_space
trim_space-blank s = refl
