-- ===== src/Utils/Tests.antt =====
-- The helpers of src/utils.rs at concrete inputs.
use atomic_queue_rs.Base.{ℕ, ◌^◌, ◌≡◌, refl, [], ◌∷◌, none, some, arith, replicate}
use atomic_queue_rs.Program.{run, done, debug, ◌>>=◌}
use atomic_queue_rs.Utils.{
  simple_index, power_of_2_index, Cells, uninitialized_fill_n, destroy_n, fill_from, initialize,
}
use atomic_queue_rs.Utils.Laws.{Fills, strategies_agree, destroy_n-uninitialized_fill_n}

strategies_agree_example :
    (power_of_2_index debug).get_index 13 (2 ^ 3) ≡ simple_index.get_index 13 (2 ^ 3)
strategies_agree_example = strategies_agree debug 13 3 (omega arith)

abbrev cells : Cells ℕ
cells = some 1 ∷ none ∷ none ∷ some 4 ∷ []

filled : run (uninitialized_fill_n 1 2 7) cells ≡ done (some 1 ∷ some 7 ∷ some 7 ∷ some 4 ∷ []) tt
unfolding uninitialized_fill_n fill_from initialize
filled = refl

destroy_n-uninitialized_fill_n_example :
    (m : Cells ℕ) × (run (uninitialized_fill_n 1 2 7 >>= λ _. destroy_n 1 2) cells
      ≡ done m (replicate 2 7))
    × Fills (some 7) 1 2 cells m
destroy_n-uninitialized_fill_n_example = destroy_n-uninitialized_fill_n 1 7 2 cells (omega arith)
