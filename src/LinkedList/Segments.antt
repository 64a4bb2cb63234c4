-- ===== src/LinkedList/Segments.antt =====
-- Chains of nodes that point at each other, and what changes of pointers (src/list.c) do to them.
use enet_revamp.Base.{
  ℕ, ◌+◌, ◌≤◌, ◌<◌, ◌≡◌, ◌≢◌, refl, sym, ap, ◌∙◌, subst, List, [], ◌∷◌, ◌++◌, arith, count,
  ==_of_eq, ==_of_ne,
}
use enet_revamp.State.{update}

-- From node a over the nodes xs to node b, each points at the next and the next points back.
abbrev pub Segment : (ℕ → ℕ) → (ℕ → ℕ) → ℕ → List ℕ → ℕ → Type 0
Segment next previous a [] b = (next a ≡ b) × (previous b ≡ a)
Segment next previous a (x ∷ xs) b = (next a ≡ x) × (previous x ≡ a) × Segment next previous x xs b

-- No node stands twice in the list.
abbrev pub Distinct : List ℕ → Type 0
Distinct xs = (n : ℕ) → count n xs ≤ 1

module _ (next previous : ℕ → ℕ) where
  pub join :
      (a : ℕ) (xs : List ℕ) (y : ℕ) (ys : List ℕ) (b : ℕ)
      → Segment next previous a xs y
      → Segment next previous y ys b
      → Segment next previous a (xs ++ y ∷ ys) b
  join a [] y ys b (e, f) t = (e, f, t)
  join a (x ∷ xs) y ys b (e, f, s) t = (e, f, join x xs y ys b s t)

  pub split :
      (a : ℕ) (xs : List ℕ) (y : ℕ) (ys : List ℕ) (b : ℕ)
      → Segment next previous a (xs ++ y ∷ ys) b
      → Segment next previous a xs y × Segment next previous y ys b
  split a [] y ys b (e, f, t) = ((e, f), t)
  split a (x ∷ xs) y ys b (e, f, s) = let (u, t) = split x xs y ys b s in ((e, f, u), t)

  -- The end of a segment points back into it.
  pub last_in :
      (a : ℕ) (xs : List ℕ) (b : ℕ) → Segment next previous a xs b → 0 < count (previous b) (a ∷ xs)
  last_in a [] b (e, f) = ground arith
  last_in a (x ∷ xs) b (e, f, s) = ground (arith, last_in x xs b s)

  pub not_last :
      (a x : ℕ) (xs : List ℕ) (y : ℕ)
      → Segment next previous x xs y
      → Distinct (a ∷ x ∷ xs)
      → a ≢ previous y
  not_last a x xs y s distinct e =
      let h : 0 < count a (x ∷ xs) = subst (λ n. 0 < count n (x ∷ xs)) (sym e) (last_in x xs y s) in
      ground (arith, distinct a)

  module _ (next' previous' : ℕ → ℕ) where
    -- A segment whose pointers did not change.
    pub frame :
        (a : ℕ) (xs : List ℕ) (b : ℕ)
        → Segment next previous a xs b
        → ((n : ℕ) → 0 < count n (a ∷ xs) → next' n ≡ next n)
        → ((n : ℕ) → 0 < count n (xs ++ b ∷ []) → previous' n ≡ previous n)
        → Segment next' previous' a xs b
    frame a [] b (e, f) nexts previouses =
        (nexts a (ground arith) ∙ e, previouses b (ground arith) ∙ f)
    frame a (x ∷ xs) b (e, f, s) nexts previouses = (
      nexts a (ground arith) ∙ e,
      previouses x (ground arith) ∙ f,
      frame x xs b s (λ n h. nexts n (omega (arith, h))) (λ n h. previouses n (omega (arith, h))),
    )

    -- A segment that now ends at d, where only the pointers at its end changed.
    pub redirect :
        (a : ℕ) (xs : List ℕ) (y d : ℕ)
        → Segment next previous a xs y
        → Distinct (a ∷ xs)
        → next' (previous y) ≡ d
        → previous' d ≡ previous y
        → ((n : ℕ) → 0 < count n (a ∷ xs) → n ≢ previous y → next' n ≡ next n)
        → ((n : ℕ) → 0 < count n xs → previous' n ≡ previous n)
        → Segment next' previous' a xs d
    redirect a [] y d (e, f) distinct there back nexts previouses =
        (ap next' (sym f) ∙ there, back ∙ f)
    redirect a (x ∷ xs) y d (e, f, s) distinct there back nexts previouses = (
      nexts a (ground arith) (not_last a x xs y s distinct) ∙ e,
      previouses x (ground arith) ∙ f,
      redirect x xs y d s (λ n. omega (arith, distinct n)) there back
          (λ n h g. nexts n (omega (arith, h)) g) (λ n h. previouses n (omega (arith, h))),
    )

pub update_self : (f : ℕ → ℕ) (k v : ℕ) → update f k v k ≡ v
update_self f k v = rw (==_of_eq k k refl) refl

pub update_ne : (f : ℕ → ℕ) (k v i : ℕ) → i ≢ k → update f k v i ≡ f i
update_ne f k v i h = rw (==_of_ne i k h) refl

pub apart :
    (n m : ℕ) (xs ys : List ℕ)
    → 0 < count n xs
    → 0 < count m ys
    → count n xs + count n ys ≤ 1
    → n ≢ m
apart n m xs ys h g once e =
    let twice : 0 < count n ys = subst (λ k. 0 < count k ys) (sym e) g in
    omega (arith, h, twice, once)

pub absent : (n m : ℕ) (xs : List ℕ) → 0 < count n xs → count m xs ≡ 0 → n ≢ m
absent n m xs h g e =
    let none_there : count n xs ≡ 0 = subst (λ k. count k xs ≡ 0) (sym e) g in
    omega (arith, h, none_there)
