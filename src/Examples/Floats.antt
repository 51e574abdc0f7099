-- ===== src/Examples/Floats.antt =====
-- Whole numbers in the place of floats, for runs on concrete inputs.
use nadi_agent.Prelude.{
  ℕ, ◌+◌, ◌-◌, ◌*◌, ◌/◌, Option, none, some, [], ◌∷◌, Runes, ltb, leb, ◌==◌, if◌then◌else◌,
}
use nadi_agent.Int64.{ℤ, pos, negsuc}
use nadi_agent.Strings.{is_digit}
use nadi_agent.Collectors.{Float}

-- The digits up to a point, behind those that make up `n`.
unfoldable pub digits : ℕ → Runes → Option ℕ
digits n [] = some n
digits n (c ∷ s) =
    let more = digits (n * 10 + (c - 48)) s in
    if is_digit c then more else if c == b'.' then some n else none

abbrev pub parse : Runes → Option ℕ
parse [] = none
parse (c ∷ s) = digits 0 (c ∷ s)

-- A duration in whole seconds.
abbrev pub seconds : ℤ → ℕ
seconds (pos n) = n / 1_000_000_000
seconds (negsuc n) = 0

abbrev pub float : Float ℕ
float = record {
  of_nat = λ n. n;
  parse = parse;
  add = λ a b. a + b;
  sub = λ a b. a - b;
  mul = λ a b. a * b;
  div = λ a b. a / b;
  lt = ltb;
  le = leb;
  seconds = seconds;
}

-- A fall to lower case of the letters A to Z.
abbrev pub lower : ℕ → ℕ
lower r = if leb b'A' r then if leb r b'Z' then r + 32 else r else r
