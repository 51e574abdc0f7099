-- ===== src/Registry/Cycle.antt =====
-- Collect of internal/collector/registry.go: the metrics and the count of failures of a cycle.
use native.Mathlib.Nat.{ℕ_set}
use mathlib.Core.List.{Perm, Perm-prop, Permᴰ, perm_append_comm}
use mathlib.Core.List.Perm
use mathlib.Core.Logic.{∥∥₁_elim}
use mathlib.Core.Path.{subst, subst₂}
use nadi_agent.Prelude.{
  ℕ, zero, suc, ◌+◌, ◌≡◌, ◌∙◌, ap, refl, sym, true, false, List, [], ◌∷◌, ◌++◌, Bytes, arith,
  append_assoc, append-nil, ◌==◌, if◌then◌else◌,
}
use nadi_agent.Collector.{Metric}
use nadi_agent.Registry.{
  CollectResult, Race, Counter, collected, failed, finished, context_done, no_data, canceled,
  deadline_exceeded, other, run_collector, add_result, collect_loop, collect, errors_metric,
}

pair_eq {ℓ κ} :
    {A : Type ℓ} {B : Type κ} {a a' : A} {b b' : B}
    → a ≡ a'
    → b ≡ b'
    → ◌≡◌ {A = A × B} (a, b) (a', b')
pair_eq p q = λ i. (p i, q i)

one_more : (n : ℕ) → suc n ≡ 1 + n
one_more n = omega arith

module _ {ℓ} {F : Type ℓ} where
  -- What a collector that worked adds.
  abbrev pub metrics_of : CollectResult F → List (Metric F)
  metrics_of (collected ms) = ms
  metrics_of (failed e) = []

  -- No data and a shutdown are no failures; a deadline that was missed is one.
  abbrev pub failures_of : CollectResult F → ℕ
  failures_of (collected ms) = 0
  failures_of (failed no_data) = 0
  failures_of (failed canceled) = 0
  failures_of (failed deadline_exceeded) = 1
  failures_of (failed other) = 1

  abbrev pub result_of : Race F → CollectResult F
  result_of (finished r) = r
  result_of (context_done e) = failed e

  unfoldable pub successes : List (Bytes × Race F) → List (Metric F)
  successes [] = []
  successes ((name, race) ∷ rest) = metrics_of (result_of race) ++ successes rest

  unfoldable pub failures : List (Bytes × Race F) → ℕ
  failures [] = 0
  failures ((name, race) ∷ rest) = failures_of (result_of race) + failures rest

  run_collector-result : (r : Race F) → run_collector r ≡ result_of r
  unfolding run_collector
  run_collector-result (finished r) = refl
  run_collector-result (context_done e) = refl

  own : Bytes × Race F → List (Metric F)
  own x = metrics_of (result_of x.1)

  swap_two : (xs ys zs : List (Metric F)) → Perm (xs ++ (ys ++ zs)) (ys ++ (xs ++ zs))
  swap_two xs ys zs =
      subst₂ Perm (append_assoc xs ys zs) (append_assoc ys xs zs)
        (Perm.append_right zs (perm_append_comm xs ys))

  successes-permᴰ :
      {xs ys : List (Bytes × Race F)} → Permᴰ xs ys → Perm (successes xs) (successes ys)
  unfolding successes own
  successes-permᴰ Permᴰ.nil = Perm.refl []
  successes-permᴰ (Permᴰ.cons {a = a} {l₁ = xs} {l₂ = ys} e p) =
      subst (λ (t : Bytes × Race F). Perm (own a ++ successes xs) (own t ++ successes ys)) e
        (Perm.append_left (own a) (successes-permᴰ p))
  successes-permᴰ (Permᴰ.swap {a = a} {b = b} {l = xs} e f) =
      subst₂
        (λ (s t : Bytes × Race F).
          Perm (own a ++ (own b ++ successes xs)) (own t ++ (own s ++ successes xs)))
        e f (swap_two (own a) (own b) (successes xs))
  successes-permᴰ (Permᴰ.trans p q) = Perm.trans (successes-permᴰ p) (successes-permᴰ q)

  fails : Bytes × Race F → ℕ
  fails x = failures_of (result_of x.1)

  failures-permᴰ : {xs ys : List (Bytes × Race F)} → Permᴰ xs ys → failures xs ≡ failures ys
  unfolding failures fails
  failures-permᴰ Permᴰ.nil = refl
  failures-permᴰ (Permᴰ.cons {a = a} {l₁ = xs} {l₂ = ys} e p) =
      subst (λ (t : Bytes × Race F). fails a + failures xs ≡ fails t + failures ys) e
        (ap (λ n. fails a + n) (failures-permᴰ p))
  failures-permᴰ (Permᴰ.swap {a = a} {b = b} {l = xs} e f) =
      subst₂
        (λ (s t : Bytes × Race F).
          fails a + (fails b + failures xs) ≡ fails t + (fails s + failures xs))
        e f (omega arith)
  failures-permᴰ (Permᴰ.trans p q) = failures-permᴰ p ∙ failures-permᴰ q

  module _ (counter : Counter F) where
    -- `n` increments of 0
    unfoldable pub count : ℕ → F
    count zero = counter.zero
    count (suc n) = counter.increment (count n)

    counted : (n : ℕ) → counter.increment (count n) ≡ count (1 + n)
    unfolding count
    counted n = ap count (one_more n)

    add_result-count :
        (r : CollectResult F) (all : List (Metric F)) (n : ℕ)
        → add_result counter r all (count n) ≡ (all ++ metrics_of r, count (failures_of r + n))
    unfolding add_result
    add_result-count (collected ms) all n = pair_eq refl (ap count (omega arith))
    add_result-count (failed no_data) all n =
        pair_eq (sym (append-nil all)) (ap count (omega arith))
    add_result-count (failed canceled) all n =
        pair_eq (sym (append-nil all)) (ap count (omega arith))
    add_result-count (failed deadline_exceeded) all n = pair_eq (sym (append-nil all)) (counted n)
    add_result-count (failed other) all n = pair_eq (sym (append-nil all)) (counted n)

    collect_loop-count :
        (rs : List (Bytes × Race F)) (all : List (Metric F)) (n : ℕ)
        → collect_loop counter rs all (count n) ≡ (all ++ successes rs, count (failures rs + n))
    unfolding collect_loop successes failures
    collect_loop-count [] all n = pair_eq (sym (append-nil all)) (ap count (omega arith))
    collect_loop-count ((name, race) ∷ rs) all n =
        let r = result_of race in
        ap (λ (s : List (Metric F) × F). collect_loop counter rs s.0 s.1)
          (ap (λ t. add_result counter t all (count n)) (run_collector-result race)
            ∙ add_result-count r all n)
        ∙ collect_loop-count rs (all ++ metrics_of r) (failures_of r + n)
        ∙ pair_eq (append_assoc all (metrics_of r) (successes rs)) (ap count (omega arith))

    abbrev report : ℕ → List (Metric F)
    report n = if n == 0 then [] else errors_metric counter (count n) ∷ []

    count-zero : count zero ≡ counter.zero
    unfolding count
    count-zero = refl

    finish :
        (n : ℕ) (all : List (Metric F))
        → counter.is_positive counter.zero ≡ false
        → ((n : ℕ) → counter.is_positive (count (suc n)) ≡ true)
        → (if counter.is_positive (count n)
            then all ++ errors_metric counter (count n) ∷ []
            else all)
          ≡ all ++ (if n == 0 then [] else errors_metric counter (count n) ∷ [])
    finish zero all at_zero at_suc = rw (count-zero, at_zero) (sym (append-nil all))
    finish (suc n) all at_zero at_suc = rw (at_suc n) (ground arith)

    -- The metrics of a cycle: those of the collectors that worked, and behind them, if any collector
    -- failed, how many did. A failure takes nothing from what the others report. `is_positive` is
    -- false of 0 and true behind any increment.
    pub collect_lem :
        (rs : List (Bytes × Race F))
        → counter.is_positive counter.zero ≡ false
        → ((n : ℕ) → counter.is_positive (count (suc n)) ≡ true)
        → collect counter rs
          ≡ successes rs
            ++ (if failures rs == 0 then [] else errors_metric counter (count (failures rs)) ∷ [])
    unfolding collect
    collect_lem rs at_zero at_suc =
        let looped : collect_loop counter rs [] counter.zero ≡ (successes rs, count (failures rs)) =
          ap (λ c. collect_loop counter rs [] c) (sym count-zero)
          ∙ collect_loop-count rs [] 0
          ∙ pair_eq refl (ap count (omega arith)) in
        ap
          (λ (s : List (Metric F) × F).
            if counter.is_positive s.1 then s.0 ++ errors_metric counter s.1 ∷ [] else s.0)
          looped
        ∙ finish (failures rs) (successes rs) at_zero at_suc

    -- Go ranges over the map of collectors in any order: whatever it is, a cycle reports the same
    -- metrics, as a multiset. `is_positive` is false of 0 and true behind any increment.
    pub collect_perm :
        (rs rs' : List (Bytes × Race F))
        → counter.is_positive counter.zero ≡ false
        → ((n : ℕ) → counter.is_positive (count (suc n)) ≡ true)
        → Perm rs rs'
        → Perm (collect counter rs) (collect counter rs')
    collect_perm rs rs' at_zero at_suc p =
        subst₂ Perm (sym (collect_lem rs at_zero at_suc)) (sym (collect_lem rs' at_zero at_suc)) (
          Perm.append (∥∥₁_elim p Perm-prop successes-permᴰ) (
            subst (λ n. Perm (report (failures rs)) (report n))
              (∥∥₁_elim p (ℕ_set (failures rs) (failures rs')) failures-permᴰ)
              (Perm.refl (report (failures rs)))))
