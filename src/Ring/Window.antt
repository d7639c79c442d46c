-- ===== src/Ring/Window.antt =====
-- The elements in the slots of `n` tickets from ticket `t` on.
use atomic_queue_rs.Base.{
  ℕ, zero, suc, ◌+◌, ◌%◌, ◌^◌, ◌≤◌, ◌<◌, ◌≡◌, refl, sym, ap, ap₂, ◌∙◌, Bool, true, List, [], ◌∷◌,
  ◌++◌, length, get_or, set, replicate, get_or-replicate, get_or-set_self, get_or-set_ne, arith,
}
use atomic_queue_rs.Ring.Laws.{IsRing}

module _ {A : Type 0} (d : A) (slot : ℕ → ℕ) where
  abbrev pub window : List A → ℕ → ℕ → List A
  window xs t zero = []
  window xs t (suc n) = get_or xs (slot t) d ∷ window xs (t + 1) n

  pub length-window : (xs : List A) (t n : ℕ) → length (window xs t n) ≡ n
  length-window xs t zero = refl
  length-window xs t (suc n) = ap suc (length-window xs (t + 1) n)

  pub window-replicate : (c t n : ℕ) → window (replicate c d) t n ≡ replicate n d
  window-replicate c t zero = refl
  window-replicate c t (suc n) =
      ap₂ ◌∷◌ (get_or-replicate c (slot t) d) (window-replicate c (t + 1) n)

module _ {A : Type 0} (d : A) {cap : ℕ} {slot : ℕ → ℕ} {periodic : Bool}
    (ring : IsRing cap slot periodic) where
  -- In a periodic ring a window may start at the wrapped ticket.
  pub window-shift :
      (xs : List A) (t n : ℕ)
      → periodic ≡ true
      → window d slot xs (t % 2 ^ 64) n ≡ window d slot xs t n
  window-shift xs t zero h = refl
  window-shift xs t (suc n) h = ap₂ ◌∷◌ (ap (λ i. get_or xs i d) (ring.wraps t h)) (
      sym (window-shift xs (t % 2 ^ 64 + 1) n h)
      ∙ ap (λ i. window d slot xs i n)
          (let e : (t % 2 ^ 64 + 1) % 2 ^ 64 ≡ (t + 1) % 2 ^ 64 = omega arith in e)
      ∙ window-shift xs (t + 1) n h)

  -- A write to the slot after a window that is not full appends the element.
  pub window-push :
      (xs : List A) (x : A) (n t i : ℕ)
      → length xs ≡ cap
      → n < cap
      → i ≡ slot (t + n)
      → window d slot (set xs i x) t (suc n) ≡ window d slot xs t n ++ x ∷ []
  window-push xs x zero t i len room e =
      ap (λ v. v ∷ [])
        (rw (e, let z : t + 0 ≡ t = omega arith in z)
          (get_or-set_self xs (slot t) x d (rw len (ring.in_range t))))
  window-push xs x (suc n) t i len room e =
      ap₂ ◌∷◌ (get_or-set_ne xs i (slot t) x d (rw e (ring.apart t (suc n) (omega arith) room))) (
        window-push xs x n (t + 1) i len (omega arith)
          (e ∙ ap slot (let z : t + suc n ≡ t + 1 + n = omega arith in z)))

  -- A write to the slot before a window leaves the window alone.
  window-before :
      (xs : List A) (v : A) (n t k : ℕ)
      → 0 < k
      → k + n ≤ cap
      → window d slot (set xs (slot t) v) (t + k) n ≡ window d slot xs (t + k) n
  window-before xs v zero t k pos room = refl
  window-before xs v (suc n) t k pos room =
      ap₂ ◌∷◌
        (get_or-set_ne xs (slot t) (slot (t + k)) v d
          (λ e. ring.apart t k pos (omega arith) (sym e)))
        (rw (let z : t + k + 1 ≡ t + (k + 1) = omega arith in z)
          (window-before xs v n t (k + 1) (omega arith) (omega arith)))

  -- The oldest element stands in the slot of `t`; the rest survives a write to that slot.
  pub window-pop :
      (xs : List A) (v : A) (n t : ℕ)
      → n < cap
      → window d slot xs t (suc n)
        ≡ get_or xs (slot t) d ∷ window d slot (set xs (slot t) v) (t + 1) n
  window-pop xs v n t room =
      ap (λ r. get_or xs (slot t) d ∷ r)
        (sym (window-before xs v n t 1 (omega arith) (omega arith)))
