-- ===== src/Strings/Scan.antt =====
-- The loops that go back over the runes of a kind before a position.
use nadi_agent.Prelude.{
  ℕ, zero, suc, ◌+◌, ◌<◌, ◌≡◌, ◌∙◌, ap, refl, Bool, true, false, ◌⊎◌, inl, inr, [], ◌∷◌, ◌++◌,
  Runes, length, All, arith,
}
use mathlib.Core.Path.{subst}
use nadi_agent.Strings.{rune_at, back_while}

-- Whether a text does not end with a rune of a kind.
abbrev pub EndsBefore : (ℕ → Bool) → Runes → Type 0
EndsBefore p [] = Unit
EndsBefore p (c ∷ []) = p c ≡ false
EndsBefore p (c ∷ d ∷ s) = EndsBefore p (d ∷ s)

module _ (p : ℕ → Bool) where
  -- The position 0, or one with another rune before it.
  abbrev IsStop : Runes → ℕ → Type 0
  IsStop s j = (j ≡ 0) ⊎ ((i : ℕ) × (j ≡ suc i) × (p (rune_at i s) ≡ false))

  back_while-stop :
      (s : Runes) (k j m : ℕ)
      → k ≡ j + m
      → ((i : ℕ) → i < m → p (rune_at (j + i) s) ≡ true)
      → IsStop s j
      → back_while p s k ≡ j
  unfolding back_while
  back_while-stop s zero j m e run stop = omega arith
  back_while-stop s (suc k) j zero e run (inl first) = absurd (omega arith)
  back_while-stop s (suc k) j zero e run (inr (i, last, other)) =
      let here : i ≡ k = omega arith in
      let off : p (rune_at k s) ≡ false = subst (λ n. p (rune_at n s) ≡ false) here other in
      rw off (omega arith)
  back_while-stop s (suc k) j (suc m) e run stop =
      let here : j + m ≡ k = omega arith in
      let on : p (rune_at k s) ≡ true =
        subst (λ n. p (rune_at n s) ≡ true) here (run m (omega arith)) in
      let rest = back_while-stop s k j m (omega arith) (λ i h. run i (omega arith)) stop in
      rw on rest

  rune_at-inside :
      (xs post : Runes) (i : ℕ)
      → i < length xs
      → All (λ c. p c ≡ true) xs
      → p (rune_at i (xs ++ post)) ≡ true
  rune_at-inside [] post i h all = absurd (omega arith)
  rune_at-inside (x ∷ xs) post zero h (hx, all) = hx
  rune_at-inside (x ∷ xs) post (suc i) h (hx, all) = rune_at-inside xs post i (omega arith) all

  rune_at-behind : (pre s : Runes) (i : ℕ) → rune_at (length pre + i) (pre ++ s) ≡ rune_at i s
  rune_at-behind [] s i = ap (λ n. rune_at n s) (omega arith)
  rune_at-behind (c ∷ pre) s i =
      let one_more : length (c ∷ pre) + i ≡ suc (length pre + i) = omega arith in
      ap (λ n. rune_at n (c ∷ (pre ++ s))) one_more ∙ rune_at-behind pre s i

  EndsBefore-IsStop : (pre s : Runes) → EndsBefore p pre → IsStop (pre ++ s) (length pre)
  EndsBefore-IsStop [] s h = inl refl
  EndsBefore-IsStop (c ∷ []) s h = inr (0, refl, h)
  EndsBefore-IsStop (c ∷ d ∷ pre) s h = elim (EndsBefore-IsStop (d ∷ pre) s h) [
    | inl none_left ↦ absurd (omega arith)
    | inr (i, last, other) ↦ inr (suc i, omega arith, other)
  ]

  -- From behind a run of runes of a kind, the loop goes back to its start.
  pub back_while-run :
      (pre xs post : Runes)
      → EndsBefore p pre
      → All (λ c. p c ≡ true) xs
      → back_while p (pre ++ (xs ++ post)) (length pre + length xs) ≡ length pre
  back_while-run pre xs post ends all =
      back_while-stop (pre ++ (xs ++ post)) (length pre + length xs) (length pre) (length xs) refl
        (λ i h. ap p (rune_at-behind pre (xs ++ post) i) ∙ rune_at-inside xs post i h all)
        (EndsBefore-IsStop pre (xs ++ post) ends)
