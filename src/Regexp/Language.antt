-- ===== src/Regexp/Language.antt =====
-- The language of an expression, and the matcher.
use mathlib.Core.Path.{subst}
use nadi_agent.Prelude.{
  ℕ, ◌≡◌, ◌↔◌, ap, refl, sym, true, false, ◌⊎◌, inl, inr, [], ◌∷◌, ◌++◌, Bytes, arith, Bool-cases,
  if◌then◌else◌,
}
use nadi_agent.Regexp.{
  Regexp, nothing, empty, class, seq, alt, star, nullable, derive, match_string,
}

-- A text in parts, each of which has the property.
pub data Star (P : Bytes → Type 0) : Bytes → Type 0 where
  stop : Star P []
  more : {s t : Bytes} → P s → Star P t → Star P (s ++ t)

-- The texts that an expression describes.
abbrev pub Matches : Regexp → Bytes → Type 0
Matches nothing s = true ≡ false
Matches empty s = s ≡ []
Matches (class p) s = (c : ℕ) × (s ≡ c ∷ []) × (p c ≡ true)
Matches (seq r q) s = (x : Bytes) × (y : Bytes) × (s ≡ x ++ y) × Matches r x × Matches q y
Matches (alt r q) s = Matches r s ⊎ Matches q s
Matches (star r) s = Star (Matches r) s

nil_parts : (x y : Bytes) → [] ≡ x ++ y → (x ≡ []) × (y ≡ [])
nil_parts [] y p = (refl, sym p)
nil_parts (c ∷ x) y p = cc

nullable→Matches : (r : Regexp) → nullable r ≡ true → Matches r []
unfolding nullable
nullable→Matches nothing h = sym h
nullable→Matches empty h = refl
nullable→Matches (class p) h = cc
nullable→Matches (seq r q) h =
    ([], [], refl, nullable→Matches r (ground (arith, h)), nullable→Matches q (ground (arith, h)))
nullable→Matches (alt r q) h = elim (Bool-cases (nullable r)) [
  | inl left ↦ inl (nullable→Matches r left)
  | inr right ↦ inr (nullable→Matches q (ground (arith, h)))
]
nullable→Matches (star r) h = stop

Matches→nullable : (r : Regexp) → Matches r [] → nullable r ≡ true
unfolding nullable
Matches→nullable nothing h = sym h
Matches→nullable empty h = refl
Matches→nullable (class p) (c, e, h) = cc
Matches→nullable (seq r q) (x, y, e, h, k) =
    let (p, p') = nil_parts x y e in
    ground (
      arith,
      Matches→nullable r (subst (Matches r) p h),
      Matches→nullable q (subst (Matches q) p' k),
    )
Matches→nullable (alt r q) (inl h) = ground (arith, Matches→nullable r h)
Matches→nullable (alt r q) (inr h) = ground (arith, Matches→nullable q h)
Matches→nullable (star r) h = refl

cons_parts : (c d : ℕ) (s t : Bytes) → c ∷ s ≡ d ∷ t → (c ≡ d) × (s ≡ t)
cons_parts c d s t p = (cc, cc)

derive→Matches : (c : ℕ) (r : Regexp) (s : Bytes) → Matches (derive c r) s → Matches r (c ∷ s)
unfolding derive
derive→Matches c nothing s h = h
derive→Matches c empty s h = cc
derive→Matches c (class p) s h = elim (Bool-cases (p c)) [
  | inl on ↦ (c, ap (λ t. c ∷ t) (subst (λ b. Matches (if b then empty else nothing) s) on h), on)
  | inr off ↦
      let no : true ≡ false = subst (λ b. Matches (if b then empty else nothing) s) off h in cc
]
derive→Matches c (seq r q) s (inl (x, y, e, h, k)) =
    (c ∷ x, y, ap (λ t. c ∷ t) e, derive→Matches c r x h, k)
derive→Matches c (seq r q) s (inr h) = elim (Bool-cases (nullable r)) [
  | inl on ↦ (
    [],
    c ∷ s,
    refl,
    nullable→Matches r on,
    derive→Matches c q s (subst (λ b. Matches (if b then derive c q else nothing) s) on h),
  )
  | inr off ↦
      let no : true ≡ false = subst (λ b. Matches (if b then derive c q else nothing) s) off h in cc
]
derive→Matches c (alt r q) s (inl h) = inl (derive→Matches c r s h)
derive→Matches c (alt r q) s (inr h) = inr (derive→Matches c q s h)
derive→Matches c (star r) s (x, y, e, h, k) =
    subst (Star (Matches r)) (ap (λ t. c ∷ t) (sym e)) (more (derive→Matches c r x h) k)

-- The first part of a text that is not empty, behind those that are.
first_part :
    {P : Bytes → Type 0} {t : Bytes}
    → Star P t
    → (c : ℕ) (s : Bytes) → t ≡ c ∷ s
    → (x : Bytes) × (y : Bytes) × (s ≡ x ++ y) × P (c ∷ x) × Star P y
first_part stop c s e = cc
first_part (more {s = []} p rest) c s e = first_part rest c s e
first_part {P} (more {s = d ∷ u} {t} p rest) c s e =
    let (same, tail) = cons_parts d c (u ++ t) s e in
    (u, t, sym tail, subst (λ d. P (d ∷ u)) same p, rest)

Matches→derive : (c : ℕ) (r : Regexp) (s : Bytes) → Matches r (c ∷ s) → Matches (derive c r) s
unfolding derive
Matches→derive c nothing s h = h
Matches→derive c empty s h = cc
Matches→derive c (class p) s (d, e, on) =
    let (same, tail) = cons_parts c d s [] e in rw (same, on) tail
Matches→derive c (seq r q) s ([], y, e, h, k) =
    inr (rw (Matches→nullable r h) (Matches→derive c q s (subst (Matches q) (sym e) k)))
Matches→derive c (seq r q) s (d ∷ x, y, e, h, k) =
    let (same, tail) = cons_parts c d s (x ++ y) e in
    inl (x, y, tail, Matches→derive c r x (subst (λ d. Matches r (d ∷ x)) (sym same) h), k)
Matches→derive c (alt r q) s (inl h) = inl (Matches→derive c r s h)
Matches→derive c (alt r q) s (inr h) = inr (Matches→derive c q s h)
Matches→derive c (star r) s h =
    let (x, y, e, first, rest) = first_part h c s refl in
    (x, y, e, Matches→derive c r x first, rest)

-- The matcher takes a text exactly if the expression describes it.
pub match_string_iff : (r : Regexp) (s : Bytes) → (match_string r s ≡ true) ↔ Matches r s
unfolding match_string
match_string_iff r [] = (nullable→Matches r, Matches→nullable r)
match_string_iff r (c ∷ s) =
    let (there, back) = match_string_iff (derive c r) s in
    ((λ h. derive→Matches c r s (there h)), (λ h. back (Matches→derive c r s h)))
