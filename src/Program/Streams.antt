-- ===== src/Program/Streams.antt =====
-- A thread that sends a list and a thread that receives some elements, whatever the memory: if each call
-- is good, so is the thread.
use mathlib.Core.Path.{subst}
use atomic_queue_rs.Base.{
  ℕ, zero, suc, ◌+◌, ◌≤◌, ◌<◌, ◌≡◌, refl, sym, ap, ap₂, ◌∙◌, Option, none, some, List, [], ◌∷◌,
  length, take, arith,
}
use atomic_queue_rs.Program.{Program, ret, ◌>>=◌, ◌>>◌}
use atomic_queue_rs.Program.Duo.{Good, Good->>=}

abbrev pub get_elem? : {A : Type 0} → List A → ℕ → Option A
get_elem? [] i = none
get_elem? (x ∷ xs) zero = some x
get_elem? (x ∷ xs) (suc i) = get_elem? xs i

module _ {M A : Type 0} where
  -- A thread that sends some elements in their order, and returns no element.
  unfoldable pub produce : (A → Program M (Unit {0})) → List A → Program M (List A)
  produce send [] = ret []
  produce send (x ∷ xs) = send x >> produce send xs

  -- A thread that receives `k` elements and returns them in their order.
  unfoldable pub consume : Program M A → ℕ → Program M (List A)
  consume receive zero = ret []
  consume receive (suc k) = do x ← receive; rest ← consume receive k; ret (x ∷ rest)

-- `ys` stand in `xs` from index `i` on.
abbrev Stand : {A : Type 0} → List A → ℕ → List A → Type 0
Stand xs i ys = (j : ℕ) → j < length ys → get_elem? xs (i + j) ≡ get_elem? ys j

some-eq : {A : Type 0} {x y : A} → some x ≡ some y → x ≡ y
some-eq e = cc

Stand-head :
    {A : Type 0} (xs : List A) (i : ℕ) (y : A) (ys : List A)
    → Stand xs i (y ∷ ys)
    → get_elem? xs i ≡ some y
Stand-head xs i y ys s =
    ap (get_elem? xs) (let d : i ≡ i + 0 = omega arith in d) ∙ s 0 (omega arith)

Stand-tail :
    {A : Type 0} (xs : List A) (i : ℕ) (y : A) (ys : List A)
    → Stand xs i (y ∷ ys)
    → Stand xs (suc i) ys
Stand-tail xs i y ys s j h =
    ap (get_elem? xs) (let d : suc i + j ≡ i + suc j = omega arith in d) ∙ s (suc j) (omega arith)

Stand-cons :
    {A : Type 0} (xs : List A) (i : ℕ) (y : A) (ys : List A)
    → get_elem? xs i ≡ some y
    → Stand xs (suc i) ys
    → Stand xs i (y ∷ ys)
Stand-cons xs i y ys e s zero h = ap (get_elem? xs) (let d : i + 0 ≡ i = omega arith in d) ∙ e
Stand-cons xs i y ys e s (suc j) h =
    ap (get_elem? xs) (let d : i + suc j ≡ suc i + j = omega arith in d) ∙ s j (omega arith)

shift :
    {A : Type 0} (x : A) (xs : List A) (j : ℕ)
    → get_elem? xs (0 + j) ≡ get_elem? (x ∷ xs) (0 + suc j)
shift x xs j =
    ap (get_elem? xs) (let d : 0 + j ≡ j = omega arith in d)
    ∙ ap (get_elem? (x ∷ xs)) (let d : suc j ≡ 0 + suc j = omega arith in d)

Stand-take :
    {A : Type 0} (xs ys : List A) → length ys ≤ length xs → Stand xs 0 ys → ys ≡ take (length ys) xs
Stand-take xs [] short s = refl
Stand-take [] (y ∷ ys) short s = absurd (omega arith)
Stand-take (x ∷ xs) (y ∷ ys) short s =
    ap₂ ◌∷◌ (sym (some-eq (s 0 (omega arith))))
      (Stand-take xs ys (omega arith) (λ j h. shift x xs j ∙ s (suc j) (omega arith)))

module _ {M G H A : Type 0} (Inv : G → H → M → Type 0) (xs : List A) where
  -- Before the call for index `i` the thread's part of the ghost state is as `At i` says.
  abbrev pub Sends : (A → Program M (Unit {0})) → (ℕ → G → Type 0) → Type 0
  Sends send At =
      (w : ℕ) (x : A)
      → get_elem? xs w ≡ some x
      → w < length xs
      → (g : G) → At w g
      → Good Inv (send x) (λ _ g. At (suc w) g) g

  -- What is received at index `r`.
  abbrev pub Received : (ℕ → G → Type 0) → ℕ → A → G → Type 0
  Received At r x g = (At (suc r) g) × (get_elem? xs r ≡ some x)

  -- The calls for the indices below `limit` are good.
  abbrev pub Receives : ℕ → Program M A → (ℕ → G → Type 0) → Type 0
  Receives limit receive At =
      (r : ℕ) → r < limit → (g : G) → At r g → Good Inv receive (Received At r) g

  -- What is received from index `r` on.
  abbrev pub ReceivedAll : (ℕ → G → Type 0) → ℕ → ℕ → List A → G → Type 0
  ReceivedAll At r k ys g = (At (r + k) g) × (length ys ≡ k) × Stand xs r ys

  module _ (send : A → Program M (Unit {0})) (At : ℕ → G → Type 0) (sends : Sends send At) where
    produce_from :
        (ys : List A) (w : ℕ)
        → w + length ys ≡ length xs
        → Stand xs w ys
        → (g : G) → At w g
        → Good Inv (produce send ys) (λ _ g. At (length xs) g) g
    unfolding produce
    produce_from [] w total s g at = subst (λ n. At n g) (omega arith) at
    produce_from (y ∷ ys) w total s g at =
        Good->>= Inv (send y) (λ _. produce send ys) (λ _ g. At (suc w) g) (λ _ g. At (length xs) g)
          g (sends w y (Stand-head xs w y ys s) (omega arith) g at)
          (λ _ g at. produce_from ys (suc w) (omega arith) (Stand-tail xs w y ys s) g at)

    pub produce-Good : (g : G) → At 0 g → Good Inv (produce send xs) (λ _ g. At (length xs) g) g
    produce-Good = produce_from xs 0 (omega arith) (λ j h. ap (get_elem? xs) (omega arith))

  module _ (limit : ℕ) (receive : Program M A) (At : ℕ → G → Type 0)
      (receives : Receives limit receive At) where
    consume_from :
        (k r : ℕ)
        → r + k ≤ limit
        → (g : G) → At r g
        → Good Inv (consume receive k) (ReceivedAll At r k) g
    unfolding consume
    consume_from zero r small g at =
        (subst (λ n. At n g) (omega arith) at, refl, λ j h. absurd (omega arith))
    consume_from (suc k) r small g at =
        Good->>= Inv receive (λ x. consume receive k >>= λ rest. ret (x ∷ rest)) (Received At r)
          (ReceivedAll At r (suc k)) g (receives r (omega arith) g at)
          (λ x g e.
            Good->>= Inv (consume receive k) (λ rest. ret (x ∷ rest)) (ReceivedAll At (suc r) k)
              (ReceivedAll At r (suc k)) g (consume_from k (suc r) (omega arith) g e.0)
              (λ ys g got. (
                subst (λ n. At n g) (omega arith) got.0,
                omega (arith, got.1),
                Stand-cons xs r x ys e.1 got.2,
              )))

    pub consume-Good :
        (k : ℕ) → k ≤ limit → (g : G) → At 0 g → Good Inv (consume receive k) (ReceivedAll At 0 k) g
    consume-Good k small = consume_from k 0 (omega arith)

-- The elements that are received are the first ones.
pub received_first :
    {A : Type 0} (xs : List A) (k : ℕ) (ys : List A)
    → length ys ≡ k
    → k ≤ length xs
    → Stand xs 0 ys
    → ys ≡ take k xs
received_first xs k ys e short s = rw (← e) (Stand-take xs ys (omega arith) s)
