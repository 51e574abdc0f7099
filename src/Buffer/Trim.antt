-- ===== src/Buffer/Trim.antt =====
-- The loop of dropOldestToFit in internal/buffer/buffer.go, and the entries that it keeps.
use nadi_agent.Prelude.{
  ℕ, suc, ◌+◌, ◌^◌, ◌<◌, ◌≡◌, ◌≢◌, refl, ap, ◌∙◌, ◌⊎◌, inl, inr, Bool, true, false, ◌||◌, List, [],
  ◌∷◌, ◌++◌, Bytes, arith, length, if_cases, le→ltb, ltb→lt, ltb_ge, sym, if◌then◌else◌,
}
use nadi_agent.Int64.{ℤ, pos, ltb_ℤ, ◌≤ℤ◌, ◌<ℤ◌, sub64, add64-pos, sub64-pos}
use nadi_agent.Buffer.{drop_loop, entry_size}

-- The bytes that entries take in the file: each with a newline.
abbrev pub total : List Bytes → ℕ
total [] = 0
total (e ∷ es) = suc (length e) + total es

pub total-append : (xs ys : List Bytes) → total (xs ++ ys) ≡ total xs + total ys
total-append [] ys = omega arith
total-append (e ∷ es) ys = omega (arith, total-append es ys)

pub entry_size-pos : (e : Bytes) → suc (length e) < 2 ^ 63 → entry_size e ≡ pos (suc (length e))
entry_size-pos e h = add64-pos (length e) 1 (omega arith) ∙ ap pos (omega arith)

-- `kept` is what is left of `all` when the oldest entries go until the rest fits `max`, and no more.
pub record IsNewestFitting (max : ℤ) (all kept : List Bytes) : Type 0 where
  pub older : List Bytes
  pub split : all ≡ older ++ kept
  pub fits : (pos (total kept) ≤ℤ max) ⊎ (kept ≡ [])
  pub maximal : (xs ys : List Bytes) → older ≡ xs ++ ys → ys ≢ [] → max <ℤ pos (total (ys ++ kept))

nil_append : (xs ys : List Bytes) → [] ≡ xs ++ ys → ys ≡ []
nil_append [] ys p = sym p
nil_append (x ∷ xs) ys p = cc

-- The size that a drop leaves, where nothing has wrapped.
pub size-drop :
    (e : Bytes) (es : List Bytes)
    → total (e ∷ es) < 2 ^ 63
    → sub64 (pos (total (e ∷ es))) (entry_size e) ≡ pos (total es)
size-drop e es h =
    rw (entry_size-pos e (omega arith), sub64-pos (total (e ∷ es)) (suc (length e)) (omega arith) h)
      (ap pos (omega arith))

-- What the loop keeps, with no arithmetic on the running size.
pub fit : ℤ → List Bytes → List Bytes
fit max [] = []
fit max (e ∷ es) =
    let later = fit max es in if ltb_ℤ max (pos (total (e ∷ es))) then later else e ∷ es

pub overfull : ℤ → List Bytes → Bool
overfull max [] = false
overfull max (e ∷ es) = ltb_ℤ max (pos (total (e ∷ es)))

pub drop_loop-fit :
    (max : ℤ) (es : List Bytes) (dropped : Bool)
    → total es < 2 ^ 63
    → drop_loop max (pos (total es)) es dropped
      ≡ (pos (total (fit max es)), fit max es, overfull max es || dropped)
unfolding drop_loop fit overfull
drop_loop-fit max [] dropped h = refl
drop_loop-fit max (e ∷ es) dropped h =
    ground (arith, size-drop e es h, drop_loop-fit max es true (omega arith))

-- An entry is kept with all that are newer.
keep_all : (max : ℤ) (es : List Bytes) → pos (total es) ≤ℤ max → IsNewestFitting max es es
keep_all max es h = record {
  older = [];
  split = refl;
  fits = inl h;
  maximal = λ xs ys p ne. absurd (ne (nil_append xs ys p));
}

-- An entry goes that does not fit with those that are newer.
drop_one :
    (max : ℤ) (e : Bytes) (es kept : List Bytes)
    → max <ℤ pos (total (e ∷ es))
    → IsNewestFitting max es kept
    → IsNewestFitting max (e ∷ es) kept
drop_one max e es kept over k = record {
  older = e ∷ k.older;
  split = ap (λ t. e ∷ t) k.split;
  fits = k.fits;
  maximal = longer;
}
  where
    longer :
        (xs ys : List Bytes) → e ∷ k.older ≡ xs ++ ys → ys ≢ [] → max <ℤ pos (total (ys ++ kept))
    longer [] ys p ne = rw (← p, ← k.split) over
    longer (x ∷ xs) ys p ne = k.maximal xs ys (cc) ne

pub fit-IsNewestFitting : (max : ℤ) (es : List Bytes) → IsNewestFitting max es (fit max es)
unfolding fit
fit-IsNewestFitting max [] = record {
  older = [];
  split = refl;
  fits = inr refl;
  maximal = λ xs ys p ne. absurd (ne (nil_append xs ys p));
}
fit-IsNewestFitting max (e ∷ es) =
    if_cases (IsNewestFitting max (e ∷ es)) (ltb_ℤ max (pos (total (e ∷ es)))) _ _
      (λ over. drop_one max e es (fit max es) (ltb→lt _ _ over) (fit-IsNewestFitting max es))
      (λ enough. keep_all max (e ∷ es) (ltb_ge _ _ enough))

-- If the newest entry fits by itself, it is kept, last.
pub fit-last :
    (max : ℤ) (es : List Bytes) (e : Bytes)
    → pos (suc (length e)) ≤ℤ max
    → (kept : List Bytes) × (fit max (es ++ e ∷ []) ≡ kept ++ e ∷ [])
unfolding fit
fit-last max [] e h = ([], ground arith)
fit-last max (x ∷ es) e h =
    let (kept, p) = fit-last max es e h in
    if_cases (λ l. (kept' : List Bytes) × (l ≡ kept' ++ e ∷ []))
      (ltb_ℤ max (pos (total (x ∷ es ++ e ∷ [])))) _ _ (λ _. (kept, p)) (λ _. (x ∷ es, refl))

-- What fits already stays whole.
pub fit_all : (max : ℤ) (es : List Bytes) → pos (total es) ≤ℤ max → fit max es ≡ es
unfolding fit
fit_all max [] h = refl
fit_all max (e ∷ es) h = rw (le→ltb _ _ h)

pub overfull_fits :
    (max : ℤ) (es : List Bytes) → (pos (total es) ≤ℤ max) ⊎ (es ≡ []) → overfull max es ≡ false
unfolding overfull
overfull_fits max [] h = refl
overfull_fits max (e ∷ es) (inl h) = le→ltb _ _ h
overfull_fits max (e ∷ es) (inr p) = cc

pub fit_whole : (max : ℤ) (es : List Bytes) → overfull max es ≡ false → fit max es ≡ es
unfolding fit overfull
fit_whole max [] h = refl
fit_whole max (e ∷ es) h = rw h
