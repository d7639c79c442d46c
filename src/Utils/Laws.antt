-- ===== src/Utils/Laws.antt =====
-- The two index strategies agree, and a range is filled and destroyed cell by cell.
use mathlib.Core.Path.{subst}
use native.Mathlib.Decide.{ℕ_discrete}
use atomic_queue_rs.Base.{
  List, [], length-replicate, inl, inr, ℕ, zero, suc, ◌+◌, ◌≤◌, ◌<◌, ◌^◌, ◌≡◌, refl, ◌∙◌, ◌≢◌, ◌⊎◌,
  ◌∷◌, Option, none, some, lt→ltb, length, set, length-set, get_or-set_self, get_or-set_ne,
  replicate, arith, two-pow_pos, two-pow_mono,
}
use atomic_queue_rs.Base.Bits.{bit_and_mask}
use atomic_queue_rs.Program.{ret, run, done, ◌>>=◌, Profile, rem_usize}
use atomic_queue_rs.Program.Laws.{run-done, sub_usize_fits}
use atomic_queue_rs.Utils.{
  simple_index, power_of_2_index, Cells, cell, initialize, drop_in_place, fill_from,
  uninitialized_fill_n, destroy_from, destroy_n,
}

-- SimpleIndex and PowerOf2Index give the same index for every position, under both profiles, if the
-- capacity is 2^k with k below 64.
pub strategies_agree :
    (p : Profile) (position k : ℕ)
    → k < 64
    → (power_of_2_index p).get_index position (2 ^ k) ≡ simple_index.get_index position (2 ^ k)
unfolding power_of_2_index simple_index rem_usize
strategies_agree p position k small = ground (
  arith,
  two-pow_pos k,
  sub_usize_fits p (2 ^ k) 1 (two-pow_pos k) (omega (arith, two-pow_mono k 63 (omega arith))),
  bit_and_mask k position,
)

-- A range of cells holds `v`, and the other cells are as they were.
pub record Fills {T : Type 0} (v : Option T) (from k : ℕ) (m m' : Cells T) : Type 0 where
  pub sized : length m' ≡ length m
  pub inside : (j : ℕ) → from ≤ j → j < from + k → cell j m' ≡ v
  pub outside : (j : ℕ) → j < from ⊎ from + k ≤ j → cell j m' ≡ cell j m

module _ {T : Type 0} where
  Fills-nothing : (v : Option T) (from : ℕ) (m : Cells T) → Fills v from 0 m m
  Fills-nothing v from m = record {
    sized = refl;
    inside = λ j a b. absurd (omega arith);
    outside = λ j o. refl;
  }

  Fills-suc :
      (v : Option T) (from next k : ℕ) (m m' : Cells T)
      → from < length m
      → next ≡ suc from
      → Fills v next k (set m from v) m'
      → Fills v from (suc k) m m'
  Fills-suc v from next k m m' room e f = record {
    sized = f.sized ∙ length-set m from v;
    inside = λ j a b. elim (ℕ_discrete from j) [
      | yes same ↦
          f.outside j (inl (omega arith)) ∙ (rw same (get_or-set_self m j v none (omega arith)))
      | no ne ↦ f.inside j (omega arith) (omega arith)
    ];
    outside = λ j o. f.outside j (after o) ∙ get_or-set_ne m from j v none (apart o);
  }
    where
      after : {j : ℕ} → j < from ⊎ from + suc k ≤ j → j < next ⊎ next + k ≤ j
      after (inl h) = inl (omega arith)
      after (inr h) = inr (omega arith)

      apart : {j : ℕ} → j < from ⊎ from + suc k ≤ j → from ≢ j
      apart (inl h) = omega arith
      apart (inr h) = omega arith

module _ {T : Type 0} (ptr : ℕ) where
  fill_from_lem :
      (v : T) (k i : ℕ) (m : Cells T)
      → ptr + i + k ≤ length m
      → (m' : Cells T) × (run (fill_from ptr v k i) m ≡ done m' tt)
        × Fills (some v) (ptr + i) k m m'
  unfolding fill_from initialize
  fill_from_lem v zero i m room = (m, refl, Fills-nothing (some v) (ptr + i) m)
  fill_from_lem v (suc k) i m room =
      let (m', ran, f) =
        fill_from_lem v k (suc i) (set m (ptr + i) (some v))
          (rw (length-set m (ptr + i) (some v)) (omega arith)) in
      (
        m',
        ground (arith, lt→ltb (ptr + i) (length m) (omega arith), ran),
        Fills-suc (some v) (ptr + i) (ptr + suc i) k m m' (omega arith) (omega arith) f,
      )

  -- uninitialized_fill_n on a range within the memory puts the value into every cell of the range
  -- and leaves the other cells and the size of the memory as they were.
  pub uninitialized_fill_n-Fills :
      (v : T) (count : ℕ) (m : Cells T)
      → ptr + count ≤ length m
      → (m' : Cells T) × (run (uninitialized_fill_n ptr count v) m ≡ done m' tt)
        × Fills (some v) ptr count m m'
  unfolding uninitialized_fill_n
  uninitialized_fill_n-Fills v count m room =
      subst
        (λ (from : ℕ).
          (m' : Cells T) × (run (fill_from ptr v count 0) m ≡ done m' tt)
          × Fills (some v) from count m m')
        (let e : ptr + 0 ≡ ptr = omega arith in e) (fill_from_lem v count 0 m (omega arith))

  -- The cells from `ptr + i` on hold the values `vs`.
  abbrev pub Stores : List T → ℕ → Cells T → Type 0
  Stores [] i m = Unit
  Stores (v ∷ vs) i m = (cell (ptr + i) m ≡ some v) × Stores vs (suc i) m

  destroy_from_lem :
      (vs : List T) (i : ℕ) (m : Cells T)
      → Stores vs i m
      → run (destroy_from ptr (length vs) i) m ≡ done m vs
  unfolding destroy_from drop_in_place
  destroy_from_lem [] i m stores = refl
  destroy_from_lem (v ∷ vs) i m (there, stores) = ground (
    arith,
    there,
    run-done (destroy_from ptr (length vs) (suc i)) (λ rest. ret (v ∷ rest)) m
        (destroy_from_lem vs (suc i) m stores),
  )

  pub destroy_n_lem :
      (vs : List T) (m : Cells T) → Stores vs 0 m → run (destroy_n ptr (length vs)) m ≡ done m vs
  unfolding destroy_n
  destroy_n_lem vs m stores = destroy_from_lem vs 0 m stores

  filled-Stores :
      (v : T) (k i : ℕ) (m : Cells T)
      → ((j : ℕ) → ptr + i ≤ j → j < ptr + i + k → cell j m ≡ some v)
      → Stores (replicate k v) i m
  filled-Stores v zero i m full = tt
  filled-Stores v (suc k) i m full = (
    full (ptr + i) (omega arith) (omega arith),
    filled-Stores v k (suc i) m (λ j lo hi. full j (omega arith) (omega arith)),
  )

  -- Filling a range of cells within the memory with a value, which is of a Copy type, and then
  -- destroying the range drops as many copies of the value as the range has cells, and reads no
  -- uninitialized cell; afterwards every cell of the range holds the value, and the other cells are
  -- as they were.
  pub destroy_n-uninitialized_fill_n :
      (v : T) (count : ℕ) (m : Cells T)
      → ptr + count ≤ length m
      → (m' : Cells T) × (run (uninitialized_fill_n ptr count v >>= λ _. destroy_n ptr count) m
          ≡ done m' (replicate count v))
        × Fills (some v) ptr count m m'
  destroy_n-uninitialized_fill_n v count m room =
      let (m', filled, f) = uninitialized_fill_n-Fills v count m room in
      let dropped : run (destroy_n ptr count) m' ≡ done m' (replicate count v) =
        subst (λ k. run (destroy_n ptr k) m' ≡ done m' (replicate count v))
          (length-replicate count v)
          (destroy_n_lem (replicate count v) m'
            (filled-Stores v count 0 m' (λ j lo hi. f.inside j (omega arith) (omega arith)))) in
      (
        m',
        run-done (uninitialized_fill_n ptr count v) (λ _. destroy_n ptr count) m filled ∙ dropped,
        f,
      )
