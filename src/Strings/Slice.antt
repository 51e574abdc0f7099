-- ===== src/Strings/Slice.antt =====
-- Slices of texts that are put together.
use nadi_agent.Prelude.{
  ◌+◌, ◌≡◌, ◌∙◌, ap, refl, sym, [], ◌∷◌, ◌++◌, Runes, length, take, drop, take_prefix, append_assoc,
  length-append,
}

pub drop_prefix : (xs ys : Runes) → drop (length xs) (xs ++ ys) ≡ ys
drop_prefix [] ys = refl
drop_prefix (x ∷ xs) ys = drop_prefix xs ys

-- A slice in the middle.
pub slice_middle :
    (pre xs rest : Runes)
    → drop (length pre) (take (length pre + length xs) (pre ++ (xs ++ rest))) ≡ xs
slice_middle pre xs rest =
    ap (λ t. drop (length pre) (take (length pre + length xs) t)) (sym (append_assoc pre xs rest))
    ∙ ap (drop (length pre))
        (take_prefix (length pre + length xs) (pre ++ xs) rest (length-append pre xs))
    ∙ drop_prefix pre xs
