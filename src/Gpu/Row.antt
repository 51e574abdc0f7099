-- ===== src/Gpu/Row.antt =====
-- A row that nvidia-smi prints, and what parseNvidiaSMI of internal/collector/gpu.go reads of it.
use nadi_agent.Prelude.{
  ℕ, ◌≡◌, ◌≢◌, ◌∙◌, ap, refl, false, Option, some, List, [], ◌∷◌, ◌++◌, Runes, All, All-append,
  ◌==◌, arith,
}
use nadi_agent.Strings.{split, trim_space, is_space}
use nadi_agent.Strings.Split.{split-one, split-part}
use nadi_agent.Strings.Trim.{
  NoSpaces, IsEnded, NoSpaces-IsEnded, append-IsEnded, trim_space-IsEnded, trim_space-NoSpaces,
  trim_space-blank,
}
use nadi_agent.Collector.{Metric}
use nadi_agent.Collectors.{Float, ◌>>=◌}
use nadi_agent.Gpu.{first_line, gpu_report, parse_nvidia_smi}

-- A text of a field: not empty, and without spaces of any kind and commas.
abbrev pub IsField : Runes → Type 0
IsField s = (s ≢ []) × NoSpaces s × All (λ c. (c == b',') ≡ false) s

-- Fields with a comma and a blank between them.
abbrev pub row : Runes → Runes → Runes → Runes → Runes → Runes
row util used total temp power =
    util
    ++ (b','
        ∷ b' '
        ∷ (used ++ (b',' ∷ b' ' ∷ (total ++ (b',' ∷ b' ' ∷ (temp ++ (b',' ∷ b' ' ∷ power)))))))

space_or_line : (c : ℕ) → is_space c ≡ false → (c == b'\n') ≡ false
unfolding is_space
space_or_line c h = ground arith

NoSpaces-lines : (s : Runes) → NoSpaces s → All (λ c. (c == b'\n') ≡ false) s
NoSpaces-lines [] h = tt
NoSpaces-lines (c ∷ s) (hc, h) = (space_or_line c hc, NoSpaces-lines s h)

-- One more field on the left.
abbrev OneLine : Runes → Type 0
OneLine s = All (λ c. (c == b'\n') ≡ false) s

join-OneLine : (s t : Runes) → IsField s → OneLine t → OneLine (s ++ (b',' ∷ b' ' ∷ t))
join-OneLine s t (_, h, _) ht =
    All-append (λ c. (c == b'\n') ≡ false) s (b',' ∷ b' ' ∷ t) (NoSpaces-lines s h)
      (refl, (refl, ht))

join-IsEnded : (s t : Runes) → IsEnded t → IsEnded (s ++ (b',' ∷ b' ' ∷ t))
join-IsEnded s t h = append-IsEnded s (b',' ∷ b' ' ∷ t) (append-IsEnded (b',' ∷ b' ' ∷ []) t h)

trim_field : (s : Runes) → IsField s → trim_space (b' ' ∷ s) ≡ s
trim_field s (_, h, _) = trim_space-blank s ∙ trim_space-NoSpaces s h

split_field :
    (s t : Runes) → IsField s → split b',' (b' ' ∷ (s ++ b',' ∷ t)) ≡ (b' ' ∷ s) ∷ split b',' t
split_field s t (_, _, h) = split-part b',' (b' ' ∷ s) t (refl, h)

trim_space-ended : (s t : Runes) → IsField s → IsEnded (s ++ t) → trim_space (s ++ t) ≡ s ++ t
trim_space-ended [] t (some_text, _, _) h = absurd (some_text refl)
trim_space-ended (c ∷ s) t (_, (hc, _), _) h = trim_space-IsEnded c (s ++ t) hc h

module _ (util used total temp power : Runes) (f₁ : IsField util) (f₂ : IsField used)
    (f₃ : IsField total) (f₄ : IsField temp) (f₅ : IsField power) where
  row-OneLine : OneLine (row util used total temp power)
  row-OneLine = join-OneLine util _ f₁ (
      join-OneLine used _ f₂
        (join-OneLine total _ f₃ (join-OneLine temp power f₄ (NoSpaces-lines power f₅.1))))

  row-IsEnded : IsEnded (row util used total temp power)
  row-IsEnded = join-IsEnded util _ (
      join-IsEnded used _
        (join-IsEnded total _ (join-IsEnded temp power (NoSpaces-IsEnded power f₅.0 f₅.1))))

  split-row :
      split b',' (row util used total temp power)
      ≡ util ∷ (b' ' ∷ used) ∷ (b' ' ∷ total) ∷ (b' ' ∷ temp) ∷ (b' ' ∷ power) ∷ []
  split-row =
      split-part b',' util _ f₁.2
      ∙ ap (λ ls. util ∷ ls)
          (split_field used _ f₂
            ∙ ap (λ ls. (b' ' ∷ used) ∷ ls)
                (split_field total _ f₃
                  ∙ ap (λ ls. (b' ' ∷ total) ∷ ls)
                      (split_field temp _ f₄
                        ∙ ap (λ ls. (b' ' ∷ temp) ∷ ls)
                            (split-one b',' (b' ' ∷ power) (refl, f₅.2)))))

  -- The fields of the first line of an output that starts with a row.
  fields-row :
      (rest : Runes)
      → split b','
          (trim_space (first_line (split b'\n' (row util used total temp power ++ b'\n' ∷ rest))))
        ≡ util ∷ (b' ' ∷ used) ∷ (b' ' ∷ total) ∷ (b' ' ∷ temp) ∷ (b' ' ∷ power) ∷ []
  fields-row rest =
      ap (λ ls. split b',' (trim_space (first_line ls)))
        (split-part b'\n' (row util used total temp power) rest row-OneLine)
      ∙ ap (split b',') (trim_space-ended util _ f₁ row-IsEnded)
      ∙ split-row

  module _ {ℓ} {F : Type ℓ} (float : Float F) where
    abbrev report_of : Runes → Runes → Runes → Runes → Runes → Option (List (Metric F))
    report_of a b c d e = float.parse a >>= λ u. float.parse b >>= λ m. float.parse c >>= λ n.
        float.parse d >>= λ t. float.parse e >>= λ p. some (gpu_report float u m n t p)

    -- From an output whose first line is a row of five fields with a comma and a blank between them, each
    -- of them not empty and without spaces and commas, the metrics are made of the numbers of the fields
    -- in their order, and there are none if a field is no number. The lines behind do not matter.
    pub parse_nvidia_smi-row :
        (rest : Runes)
        → parse_nvidia_smi float (row util used total temp power ++ b'\n' ∷ rest) ≡ (
            float.parse util >>= λ u. float.parse used >>= λ m. float.parse total >>= λ n.
            float.parse temp >>= λ t. float.parse power >>= λ p. some (gpu_report float u m n t p))
    unfolding parse_nvidia_smi
    parse_nvidia_smi-row rest = rw (fields-row rest) (λ i.
        report_of (trim_space-NoSpaces util f₁.1 i) (trim_field used f₂ i) (trim_field total f₃ i)
          (trim_field temp f₄ i) (trim_field power f₅ i))
