-- ===== src/Turn/Stats/Streaming.antt =====
-- The parse after each line that arrives, against one parse of the whole text.
use nadi_agent.Prelude.{
  ℕ, ◌≡◌, ◌∙◌, ap, refl, sym, true, ◌&&◌, inl, inr, some, List, [], ◌∷◌, ◌++◌, Runes, arith,
  append_assoc, append-nil, Bool-cases,
}
use nadi_agent.Strings.{contains, has_prefix, split}
use nadi_agent.Strings.Split.{split-append_sep}
use nadi_agent.Collectors.{Float}
use nadi_agent.Turn.Stats.{
  Stats, result_of, nothing_found, find_sessions, find_bytes, stats_loop, parse_coturn_stats,
  read_loop, read_coturn_stats,
}

-- The text of lines, each with its newline.
pub text_of : List Runes → Runes
text_of [] = []
text_of (line ∷ lines) = line ++ b'\n' ∷ text_of lines

module _ {ℓ} {F : Type ℓ} (float : Float F) (lower : ℕ → ℕ) where
  stats_loop-append :
      (xs ys : List Runes) (st : Stats F)
      → stats_loop float lower (xs ++ ys) st
        ≡ stats_loop float lower ys (stats_loop float lower xs st)
  unfolding stats_loop
  stats_loop-append [] ys st = refl
  stats_loop-append (x ∷ xs) ys st =
      stats_loop-append xs ys (find_bytes float lower x (find_sessions float lower x st))

  line_done :
      (l : Runes) (st : Stats F)
      → (st.found_sessions && st.found_bytes) ≡ true
      → find_bytes float lower l (find_sessions float lower l st) ≡ st
  line_done l st h = ground arith

  -- Where both numbers are found, no line changes them.
  stats_loop_done :
      (ls : List Runes) (st : Stats F)
      → (st.found_sessions && st.found_bytes) ≡ true
      → stats_loop float lower ls st ≡ st
  unfolding stats_loop
  stats_loop_done [] st h = refl
  stats_loop_done (l ∷ ls) st h =
      ap (stats_loop float lower ls) (line_done l st h) ∙ stats_loop_done ls st h

  -- An empty line changes nothing.
  stats_loop_empty : (st : Stats F) → stats_loop float lower ([] ∷ []) st ≡ st
  unfolding stats_loop contains has_prefix
  stats_loop_empty st = ground arith

  -- The numbers that are found in a text.
  abbrev found_in : Runes → Stats F
  found_in x = stats_loop float lower (split b'\n' x) (nothing_found float)

  parse_with_rest :
      (x rest : Runes)
      → parse_coturn_stats float lower (x ++ b'\n' ∷ rest)
        ≡ result_of (stats_loop float lower (split b'\n' rest) (found_in x))
  unfolding parse_coturn_stats
  parse_with_rest x rest =
      ap (λ ls. result_of (stats_loop float lower ls (nothing_found float)))
        (split-append_sep b'\n' x rest)
      ∙ ap result_of (stats_loop-append (split b'\n' x) (split b'\n' rest) (nothing_found float))

  parse_line_end :
      (x : Runes) → parse_coturn_stats float lower (x ++ b'\n' ∷ []) ≡ result_of (found_in x)
  parse_line_end x =
      parse_with_rest x [] ∙ (unfold split in ap result_of (stats_loop_empty (found_in x)))

  -- What is behind a text with both numbers does not matter.
  parse_done :
      (x rest : Runes)
      → (parse_coturn_stats float lower (x ++ b'\n' ∷ [])).1 ≡ true
      → parse_coturn_stats float lower (x ++ b'\n' ∷ rest)
        ≡ parse_coturn_stats float lower (x ++ b'\n' ∷ [])
  parse_done x rest h =
      parse_with_rest x rest
      ∙ ap result_of (
          stats_loop_done (split b'\n' rest) (found_in x)
            (ap (λ r. r.1) (sym (parse_line_end x)) ∙ h))
      ∙ sym (parse_line_end x)

  read_loop-whole :
      (lines : List Runes) (buf : Runes)
      → read_loop float lower lines buf ≡ parse_coturn_stats float lower (buf ++ text_of lines)
  unfolding read_loop text_of
  read_loop-whole [] buf = ap (parse_coturn_stats float lower) (sym (append-nil buf))
  read_loop-whole (line ∷ lines) buf =
      let parse = parse_coturn_stats float lower in
      let ended : buf ++ (line ++ b'\n' ∷ []) ≡ (buf ++ line) ++ b'\n' ∷ [] =
        sym (append_assoc buf line (b'\n' ∷ [])) in
      elim (Bool-cases (parse (buf ++ (line ++ b'\n' ∷ []))).1) [
        | inl found ↦
            rw (found, read_loop)
              (ap parse ended
                ∙ sym (
                    parse_done (buf ++ line) (text_of lines)
                      (ap (λ t. (parse t).1) (sym ended) ∙ found))
                ∙ ap parse (append_assoc buf line (b'\n' ∷ text_of lines)))
        | inr missing ↦
            rw (missing, read_loop)
              (read_loop-whole lines (buf ++ (line ++ b'\n' ∷ []))
                ∙ ap parse (
                    append_assoc buf (line ++ b'\n' ∷ []) (text_of lines)
                    ∙ ap (λ t. buf ++ t) (append_assoc line (b'\n' ∷ []) (text_of lines))))
      ]

  -- Reading the output line by line, and stopping as soon as both numbers are seen, returns what a
  -- parse of the whole output returns, whatever the lines are and wherever they end.
  pub read_coturn_stats-whole :
      (lines : List Runes)
      → read_coturn_stats float lower (some lines) ≡ parse_coturn_stats float lower (text_of lines)
  unfolding read_coturn_stats
  read_coturn_stats-whole lines = read_loop-whole lines []
