-- ===== src/Ring/Around.antt =====
-- Going once round a ring, from slot 0 or from any ticket.
use mathlib.Core.Path.{subst}
use native.Mathlib.Decide.{ℕ_discrete}
use mathlib.Core.List.{perm_append_comm, append-nil, append_assoc, Perm}
use mathlib.Core.List.Perm
use atomic_queue_rs.Base.{ℕ, zero, suc, ◌+◌, ◌≤◌, ◌<◌, ◌≡◌, sym, ap, ◌∙◌, List, [], ◌++◌, arith}

module _ {A : Type 0} (f : ℕ → List A) where
  -- What `f` gives for `n` tickets from `t` on.
  abbrev pub collect : ℕ → ℕ → List A
  collect t zero = []
  collect t (suc n) = f t ++ collect (t + 1) n

  collect-snoc : (n t : ℕ) → collect t (suc n) ≡ collect t n ++ f (t + n)
  collect-snoc zero t = append-nil (f t) ∙ ap f (omega arith)
  collect-snoc (suc n) t =
      ap (λ r. f t ++ r)
        (collect-snoc n (t + 1)
          ∙ ap (λ j. collect (t + 1) n ++ f j) (let e : t + 1 + n ≡ t + suc n = omega arith in e))
      ∙ sym (append_assoc (f t) (collect (t + 1) n) (f (t + suc n)))

  pub collect-add : (n k t : ℕ) → collect t (n + k) ≡ collect t n ++ collect (t + n) k
  collect-add zero k t =
      ap (collect t) (let e : 0 + k ≡ k = omega arith in e)
      ∙ ap (λ j. collect j k) (let e : t ≡ t + 0 = omega arith in e)
  collect-add (suc n) k t =
      ap (collect t) (let e : suc n + k ≡ suc (n + k) = omega arith in e)
      ∙ ap (λ r. f t ++ r)
          (collect-add n k (t + 1)
            ∙ ap (λ j. collect (t + 1) n ++ collect j k)
                (let e : t + 1 + n ≡ t + suc n = omega arith in e))
      ∙ sym (append_assoc (f t) (collect (t + 1) n) (collect (t + suc n) k))

  collect-next : (cap t : ℕ) → f (t + cap) ≡ f t → Perm (collect t cap) (collect (t + 1) cap)
  collect-next zero t round = Perm.refl []
  collect-next (suc c) t round =
      subst (Perm (f t ++ collect (t + 1) c))
        (ap (λ r. collect (t + 1) c ++ r)
            (sym round ∙ ap f (let e : t + suc c ≡ t + 1 + c = omega arith in e))
          ∙ sym (collect-snoc c (t + 1)))
        (perm_append_comm (f t) (collect (t + 1) c))

  module _ (cap : ℕ) (round : (i : ℕ) → f (i + cap) ≡ f i) where
    pub collect-perm : (t : ℕ) → Perm (collect 0 cap) (collect t cap)
    collect-perm zero = Perm.refl (collect 0 cap)
    collect-perm (suc t) = Perm.trans (collect-perm t) (
        subst (λ j. Perm (collect t cap) (collect j cap)) (omega arith)
          (collect-next cap t (round t)))

-- What holds of the tickets of one round holds of all slots.
pub around :
    (Q : ℕ → Type 0) (cap : ℕ)
    → ((i : ℕ) → Q (i + cap) → Q i)
    → (t : ℕ) → ((i : ℕ) → t ≤ i → i < t + cap → Q i)
    → (i : ℕ) → i < cap
    → Q i
around Q cap back zero h i lt = h i (omega arith) (omega arith)
around Q cap back (suc t) h i lt =
    around Q cap back t
      (λ j lo hi. elim (ℕ_discrete j t) [
        | yes e ↦ back j (h (j + cap) (omega arith) (omega arith))
        | no ne ↦ h j (omega arith) (omega arith)
      ])
      i lt
