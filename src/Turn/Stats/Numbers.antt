-- ===== src/Turn/Stats/Numbers.antt =====
-- firstNumber of internal/collector/turn_stats.go.
use nadi_agent.Prelude.{
  ℕ, suc, ◌+◌, ◌≡◌, ◌∙◌, ap, refl, Bool, true, false, some, [], ◌∷◌, ◌++◌, Runes, length, take,
  drop, All,
}
use nadi_agent.Strings.Slice.{drop_prefix, slice_middle}
use nadi_agent.Strings.{index_func, count_while, is_digit, is_numeric}
use nadi_agent.Collectors.{Float}
use nadi_agent.Turn.Stats.{first_number}

-- Whether a text starts with no rune of a kind.
abbrev pub Stops : (ℕ → Bool) → Runes → Type 0
Stops p [] = Unit
Stops p (c ∷ s) = p c ≡ false

index_func-prefix :
    (p : ℕ → Bool) (pre : Runes) (c : ℕ) (rest : Runes)
    → All (λ r. p r ≡ false) pre
    → p c ≡ true
    → index_func p (pre ++ c ∷ rest) ≡ some (length pre)
unfolding index_func
index_func-prefix p [] c rest h hc = rw hc refl
index_func-prefix p (r ∷ pre) c rest (hr, h) hc = rw (hr, index_func-prefix p pre c rest h hc) refl

count_while-prefix :
    (p : ℕ → Bool) (xs rest : Runes)
    → All (λ r. p r ≡ true) xs
    → Stops p rest
    → count_while p (xs ++ rest) ≡ length xs
unfolding count_while
count_while-prefix p [] [] h stop = refl
count_while-prefix p [] (c ∷ rest) h stop = rw stop refl
count_while-prefix p (x ∷ xs) rest (hx, h) stop =
    rw hx (ap suc (count_while-prefix p xs rest h stop))

module _ {ℓ} {F : Type ℓ} (float : Float F) where
  -- On a line of a part without digits, a digit, and more digits and points up to something else or to
  -- the end, the number is read from the digit and those digits and points.
  first_number-token :
      (before : Runes) (c : ℕ) (token behind : Runes)
      → All (λ r. is_digit r ≡ false) before
      → is_digit c ≡ true
      → All (λ r. is_numeric r ≡ true) token
      → Stops is_numeric behind
      → first_number float (before ++ ((c ∷ token) ++ behind)) ≡ float.parse (c ∷ token)
  unfolding first_number
  first_number-token before c token behind h digit numeric stop =
      let here = index_func-prefix is_digit before c (token ++ behind) h digit in
      let first : is_numeric c ≡ true = rw digit refl in
      let counted = count_while-prefix is_numeric (c ∷ token) behind (first, numeric) stop in
      rw here (
        ap
          (λ t. float.parse (
            drop (length before) (
              take (length before + count_while is_numeric t) (before ++ ((c ∷ token) ++ behind)))))
          (drop_prefix before ((c ∷ token) ++ behind))
        ∙ ap
            (λ n.
              float.parse (
                drop (length before)
                  (take (length before + n) (before ++ ((c ∷ token) ++ behind)))))
            counted
        ∙ ap float.parse (slice_middle before (c ∷ token) behind))
