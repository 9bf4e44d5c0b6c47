-- ===== src/Run/Total.antt =====
-- The steps of a run add up to it.
use native.Mathlib.Nat.{div-add-mod, mod-lt}
use spi_nnfront_end_common.Common.{
  ℕ, zero, suc, ◌+◌, ◌-◌, ◌*◌, ◌/◌, ◌%◌, ◌≤◌, ◌<◌, ◌≡◌, refl, sym, ap, ◌∙◌, inl, inr, none, some,
  List, [], ◌∷◌, ◌++◌, map, ok, ◌==◌, Bool-cases, replicate, length, length-append,
  length-replicate, All, All-append, arith,
}
use spi_nnfront_end_common.Run.Steps.{
  RunData, increment_current_run_timesteps, get_max_run_time_steps, next_run_step, clear_run_steps,
  segments, generate_steps, run_each, run_steps,
}

abbrev pub total : List ℕ → ℕ
total [] = 0
total (n ∷ ns) = n + total ns

total-append : (ns ms : List ℕ) → total (ns ++ ms) ≡ total ns + total ms
total-append [] ms = omega arith
total-append (n ∷ ns) ms = omega (arith, total-append ns ms)

total-replicate : (k n : ℕ) → total (replicate k n) ≡ k * n
total-replicate zero n = omega arith
total-replicate (suc k) n = grind (arith, total-replicate k n)

replicate-All : (k n : ℕ) → 0 < n → All (λ s. (0 < s) × (s ≤ n)) (replicate k n)
replicate-All zero n h = tt
replicate-All (suc k) n h = ((h, omega arith), replicate-All k n h)

-- The steps of a run of `n` time steps: they add up to `n`, none is longer than allowed or empty,
-- and there are as few as can be.
pub record Divides (n max : ℕ) (steps : List ℕ) : Type 0 where
  pub adds_up : total steps ≡ n
  pub each : All (λ s. (0 < s) × (s ≤ max)) steps
  pub few : length steps * max < n + max

-- The quotient and what is left over, as numbers.
module _ (n m q left : ℕ) (sum : q * suc m + left ≡ n) (small : left < suc m) where
  whole-Divides : left ≡ 0 → Divides n (suc m) (replicate q (suc m))
  whole-Divides none_left = record {
    adds_up = omega (arith, total-replicate q (suc m));
    each = replicate-All q (suc m) (omega arith);
    few = grind (arith, length-replicate q (suc m));
  }

  part-Divides : 0 < left → Divides n (suc m) (replicate q (suc m) ++ left ∷ [])
  part-Divides some_left = record {
    adds_up =
        omega (arith, total-append (replicate q (suc m)) (left ∷ []), total-replicate q (suc m));
    each =
        All-append (λ s. (0 < s) × (s ≤ suc m)) (replicate q (suc m)) (left ∷ [])
          (replicate-All q (suc m) (omega arith)) ((some_left, omega arith), tt);
    few =
        rw (length-append (replicate q (suc m)) (left ∷ []), length-replicate q (suc m))
          (grind arith);
  }

remainder_small : (n m : ℕ) → n % suc m < suc m
remainder_small n m = mod-lt n (omega arith)

quotient_facts :
    (n m : ℕ)
    → ((n / suc m) * suc m + (n - (n / suc m) * suc m) ≡ n) × (n - (n / suc m) * suc m < suc m)
quotient_facts n m = grind (arith, div-add-mod n (suc m), remainder_small n m)

segments-Divides :
    (n m : ℕ) → (steps : List ℕ) × (segments n (suc m) ≡ ok steps) × Divides n (suc m) steps
unfolding segments
segments-Divides n m =
    let (sum, small) = quotient_facts n m in
    elim (Bool-cases (n - (n / suc m) * suc m == 0)) [
      | inl whole ↦ (_, rw whole refl, whole-Divides n m _ _ sum small (ground arith))
      | inr part ↦ (_, rw part refl, part-Divides n m _ _ sum small (ground arith))
    ]

-- A run of at least one time step, where the longest allowed step is known, is divided in steps that
-- add up to it, each of at least one time step and no longer than allowed, and as few as can be.
pub generate_steps-Divides :
    (n m : ℕ) (d : RunData)
    → 0 < n
    → d.max_run_time_steps ≡ some (suc m)
    → (steps : List ℕ) × (generate_steps (some n) d ≡ ok steps) × Divides n (suc m) steps
unfolding generate_steps get_max_run_time_steps
generate_steps-Divides zero m d some_step known = absurd (omega arith)
generate_steps-Divides (suc n) m d some_step known = rw known (segments-Divides (suc n) m)

run_each-total :
    (steps : List ℕ) (current : ℕ) (d : RunData)
    → d.current_run_timesteps ≡ some current
    → (d' : RunData) × (run_each (map some steps) d ≡ ok d')
      × (d'.current_run_timesteps ≡ some (current + total steps))
unfolding run_each increment_current_run_timesteps next_run_step
run_each-total [] current d known = (d, refl, known ∙ ap some (omega arith))
run_each-total (s ∷ steps) current d known =
    let (d', ran, at) =
      run_each-total steps (current + s)
        (record (next_run_step d) {
          first_machine_time_step = current;
          current_run_timesteps = some (current + s);
        })
        refl in
    (d', rw known ran, at ∙ ap some (omega arith))

-- Running the steps of a run one after the other moves the time on by exactly the time steps of the
-- run, from wherever it stood, unless the run before had no end; the count of steps is cleared.
pub run_steps-total :
    (n m current : ℕ) (d : RunData) (steps : List ℕ)
    → 0 < n
    → d.max_run_time_steps ≡ some (suc m)
    → d.current_run_timesteps ≡ some current
    → generate_steps (some n) d ≡ ok steps
    → (d' : RunData) × (run_steps (map some steps) d ≡ ok d')
      × (d'.current_run_timesteps ≡ some (current + n))
      × (d'.run_step ≡ none)
unfolding run_steps clear_run_steps
run_steps-total n m current d steps some_step max_known known generated =
    let (steps', generated', divides) = generate_steps-Divides n m d some_step max_known in
    let (d', ran, at) = run_each-total steps current d known in
    let same : steps' ≡ steps = cc in
    (
      clear_run_steps d',
      rw ran refl,
      at ∙ ap (λ k. some (current + k)) (ap total (sym same) ∙ divides.adds_up),
      refl,
    )
