-- ===== src/AtomicQueue/History/Share.antt =====
-- The elements of a thread's tickets.
use atomic_queue_rs.Base.{
  ℕ, zero, suc, ◌+◌, ◌-◌, ◌≤◌, ◌<◌, ◌≡◌, ◌≢◌, refl, ap, ◌∙◌, [], ◌∷◌, ◌++◌, arith, eq→==, ne→==,
}
use atomic_queue_rs.AtomicQueue.History.{share, Gap}

module _ (owner log : ℕ → ℕ) (i : ℕ) where
  pub share-own :
      (n : ℕ) → owner n ≡ i → share owner log i (suc n) ≡ share owner log i n ++ log n ∷ []
  share-own n e = rw (eq→== (owner n) i e)

  pub share-other : (n : ℕ) → owner n ≢ i → share owner log i (suc n) ≡ share owner log i n
  share-other n ne = rw (ne→== (owner n) i ne)

  share-add : (b k : ℕ) → Gap owner i b (b + k) → share owner log i (b + k) ≡ share owner log i b
  share-add b zero gap = ap (share owner log i) (omega arith)
  share-add b (suc k) gap =
      ap (share owner log i) (let e : b + suc k ≡ suc (b + k) = omega arith in e)
      ∙ share-other (b + k) (gap (b + k) (omega arith) (omega arith))
      ∙ share-add b k (λ t lo hi. gap t lo (omega arith))

  pub share-Gap : (b c : ℕ) → b ≤ c → Gap owner i b c → share owner log i c ≡ share owner log i b
  share-Gap b c le gap =
      let e : c ≡ b + (c - b) = omega arith in
      ap (share owner log i) e ∙ share-add b (c - b) (λ t lo hi. gap t lo (omega arith))

-- Only the tickets below `n` count.
pub share-agree :
    (owner owner' log log' : ℕ → ℕ) (i n : ℕ)
    → ((t : ℕ) → t < n → owner t ≡ owner' t)
    → ((t : ℕ) → t < n → log t ≡ log' t)
    → share owner log i n ≡ share owner' log' i n
share-agree owner owner' log log' i zero o l = refl
share-agree owner owner' log log' i (suc n) o l = ground (
  arith,
  o n (omega arith),
  l n (omega arith),
  share-agree owner owner' log log' i n (λ t h. o t (omega arith)) (λ t h. l t (omega arith)),
)
