-- ===== src/Utils/Aligned.antt =====
-- The `AlignedArray` of src/utils.rs, filled and destroyed by the loops of the same file.
use atomic_queue_rs.Base.{ℕ, ◌≤◌, ◌≡◌, none, some, length, length-replicate, replicate, arith}
use atomic_queue_rs.Program.{run, done, ◌>>=◌}
use atomic_queue_rs.Utils.{Cells, new_uninit, as_mut_ptr, uninitialized_fill_n, destroy_n}
use atomic_queue_rs.Utils.Laws.{Fills, destroy_n-uninitialized_fill_n}

module _ {T : Type 0} where
  -- Filling the first cells of a new array and destroying them drops a copy of the value for each, and
  -- leaves the other cells uninitialized.
  pub new_uninit_filled :
      (n count : ℕ) (v : T)
      → count ≤ n
      → (m : Cells T) × (run
            (uninitialized_fill_n (as_mut_ptr (new_uninit {T = T} n)) count v >>= λ _.
              destroy_n (as_mut_ptr (new_uninit {T = T} n)) count)
            (new_uninit n)
          ≡ done m (replicate count v))
        × Fills (some v) 0 count (new_uninit n) m
  unfolding new_uninit as_mut_ptr
  new_uninit_filled n count v room =
      destroy_n-uninitialized_fill_n 0 v count (replicate n none)
        (let e : length (new_uninit {T = T} n) ≡ n = length-replicate n none in omega (arith, e))
