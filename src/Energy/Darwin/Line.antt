-- ===== src/Energy/Darwin/Line.antt =====
-- wattsFromLine of internal/collector/energy_darwin.go.
use nadi_agent.Prelude.{
  ℕ, ◌+◌, ◌≡◌, ◌≢◌, ◌∙◌, ap, refl, sym, true, false, some, [], ◌∷◌, ◌++◌, Bytes, Runes, length,
  length-append, append_assoc, All, arith,
}
use nadi_agent.Strings.{index, back_while, slice, is_numeric}
use nadi_agent.Strings.Slice.{slice_middle}
use nadi_agent.Strings.Scan.{EndsBefore, back_while-run}
use nadi_agent.Collectors.{Float, ◌>>=◌}
use nadi_agent.Energy.Darwin.{is_blank, to_watts, number_before, watts_from_line}

numeric_or_blank : (c : ℕ) → is_numeric c ≡ true → is_blank c ≡ false
numeric_or_blank c h = ground arith

-- A text that ends with digits and points does not end with a blank.
EndsBefore-number :
    (before number : Runes)
    → number ≢ []
    → All (λ c. is_numeric c ≡ true) number
    → EndsBefore is_blank (before ++ number)
EndsBefore-number [] [] some_text h = absurd (some_text refl)
EndsBefore-number [] (c ∷ []) some_text (hc, h) = numeric_or_blank c hc
EndsBefore-number [] (c ∷ d ∷ s) some_text (hc, h) = EndsBefore-number [] (d ∷ s) (λ p. cc) h
EndsBefore-number (b ∷ []) [] some_text h = absurd (some_text refl)
EndsBefore-number (b ∷ []) (c ∷ s) some_text h = EndsBefore-number [] (c ∷ s) (λ p. cc) h
EndsBefore-number (b ∷ d ∷ before) number some_text h =
    EndsBefore-number (d ∷ before) number some_text h

number_before-number :
    (before number blanks rest : Runes)
    → EndsBefore is_numeric before
    → number ≢ []
    → All (λ c. is_numeric c ≡ true) number
    → All (λ c. is_blank c ≡ true) blanks
    → number_before
        (before ++ (number ++ (blanks ++ rest)))
        (length before + length number + length blanks)
      ≡ number
number_before-number before number blanks rest ends some_text digits spaces =
    let line = before ++ (number ++ (blanks ++ rest)) in
    let joined : line ≡ (before ++ number) ++ (blanks ++ rest) =
      sym (append_assoc before number (blanks ++ rest)) in
    let counted = length-append before number in
    let end : back_while is_blank line (length before + length number + length blanks)
        ≡ length before + length number =
      ap (λ n. back_while is_blank line (n + length blanks)) (sym counted)
      ∙ ap (λ t. back_while is_blank t (length (before ++ number) + length blanks)) joined
      ∙ back_while-run is_blank (before ++ number) blanks rest
          (EndsBefore-number before number some_text digits) spaces
      ∙ counted in
    ap (λ n. slice (back_while is_numeric line n) n line) end
    ∙ ap (λ n. slice n (length before + length number) line)
        (back_while-run is_numeric before number (blanks ++ rest) ends digits)
    ∙ slice_middle before number (blanks ++ rest)

module _ {ℓ} {F : Type ℓ} (float : Float F) where
  -- On a line whose first place with the unit is behind digits and points, at least one, and blanks, with
  -- neither digit nor point before them, the power is the number that they make, in watts.
  watts_from_line-number :
      (before number blanks rest : Runes) (unit : Bytes)
      → EndsBefore is_numeric before
      → number ≢ []
      → All (λ c. is_numeric c ≡ true) number
      → All (λ c. is_blank c ≡ true) blanks
      → index (before ++ (number ++ (blanks ++ rest))) unit
        ≡ some (length before + length number + length blanks)
      → watts_from_line float (before ++ (number ++ (blanks ++ rest))) unit
        ≡ (float.parse number >>= λ v. some (to_watts float unit v))
  unfolding watts_from_line
  watts_from_line-number before number blanks rest unit ends some_text digits spaces found =
      rw found (
        ap (λ t. float.parse t >>= λ v. some (to_watts float unit v))
          (number_before-number before number blanks rest ends some_text digits spaces))
