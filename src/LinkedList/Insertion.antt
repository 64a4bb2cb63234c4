-- ===== src/LinkedList/Insertion.antt =====
-- The pointers that enet_list_insert (src/list.c) leaves.
use enet_revamp.Base.{
  ℕ, ◌+◌, ◌≤◌, ◌≡◌, ◌≢◌, sym, ap, ◌∙◌, List, [], ◌∷◌, ◌++◌, arith, count, count-append,
}
use enet_revamp.State.{update}
use enet_revamp.LinkedList.{Links, insert}
use enet_revamp.LinkedList.Segments.{
  Segment, Distinct, join, split, last_in, frame, redirect, update_self, update_ne, apart, absent,
}

-- The pointers after an insertion of d before y.
module _ (h : Links) (y d : ℕ) where
  insert-next : (insert y d h).next ≡ update (update h.next d y) (h.previous y) d
  unfolding insert
  insert-next = ap (λ k. update (update h.next d y) k d) (update_self h.previous d (h.previous y))

  insert-next_last : (insert y d h).next (h.previous y) ≡ d
  insert-next_last =
      ap (λ f. f (h.previous y)) insert-next ∙ update_self (update h.next d y) (h.previous y) d

  insert-next_node : d ≢ h.previous y → (insert y d h).next d ≡ y
  insert-next_node e =
      ap (λ f. f d) insert-next
      ∙ (update_ne (update h.next d y) (h.previous y) d d e ∙ update_self h.next d y)

  insert-next_other : (n : ℕ) → n ≢ h.previous y → n ≢ d → (insert y d h).next n ≡ h.next n
  insert-next_other n e f =
      ap (λ g. g n) insert-next
      ∙ (update_ne (update h.next d y) (h.previous y) d n e ∙ update_ne h.next d y n f)

  insert-previous_node : d ≢ y → (insert y d h).previous d ≡ h.previous y
  unfolding insert
  insert-previous_node e =
      update_ne (update h.previous d (h.previous y)) y d d e
      ∙ update_self h.previous d (h.previous y)

  insert-previous_position : (insert y d h).previous y ≡ d
  unfolding insert
  insert-previous_position = update_self (update h.previous d (h.previous y)) y d

  insert-previous_other : (n : ℕ) → n ≢ y → n ≢ d → (insert y d h).previous n ≡ h.previous n
  unfolding insert
  insert-previous_other n e f =
      update_ne (update h.previous d (h.previous y)) y d n e
      ∙ update_ne h.previous d (h.previous y) n f

pub insert_last :
    (h : Links) (l d : ℕ) (xs : List ℕ)
    → Segment h.next h.previous l xs l
    → Distinct (l ∷ xs)
    → count d (l ∷ xs) ≡ 0
    → Segment (insert l d h).next (insert l d h).previous l (xs ++ d ∷ []) l
insert_last h l d xs s distinct new =
    let last = last_in h.next h.previous l xs l s in
    let g = insert l d h in
    let d_last : d ≢ h.previous l = λ e. absent (h.previous l) d (l ∷ xs) last new (sym e) in
    let d_l : d ≢ l = λ e. absent l d (l ∷ xs) (ground arith) new (sym e) in
    join g.next g.previous l xs d [] l
      (redirect h.next h.previous g.next g.previous l xs l d s distinct (insert-next_last h l d)
        (insert-previous_node h l d d_l)
        (λ n i e. insert-next_other h l d n e (absent n d (l ∷ xs) i new))
        (λ n i.
          insert-previous_other h l d n
            (apart n l xs (l ∷ []) i (ground arith) (omega (arith, distinct n)))
            (absent n d (l ∷ xs) (omega (arith, i)) new)))
      (insert-next_node h l d d_last, insert-previous_position h l d)

pub insert_before :
    (h : Links) (l d y : ℕ) (xs ys : List ℕ)
    → Segment h.next h.previous l (xs ++ y ∷ ys) l
    → Distinct (l ∷ xs ++ y ∷ ys)
    → count d (l ∷ xs ++ y ∷ ys) ≡ 0
    → Segment (insert y d h).next (insert y d h).previous l (xs ++ d ∷ y ∷ ys) l
insert_before h l d y xs ys s distinct new =
    let (s1, s2) = split h.next h.previous l xs y ys l s in
    let last = last_in h.next h.previous l xs y s1 in
    let g = insert y d h in
    let once : (n : ℕ) → count n (l ∷ xs) + count n (y ∷ ys) ≤ 1 =
      λ n. omega (arith, distinct n, count-append n xs (y ∷ ys)) in
    let new1 : count d (l ∷ xs) ≡ 0 = omega (arith, new, count-append d xs (y ∷ ys)) in
    let new2 : count d (y ∷ ys) ≡ 0 = omega (arith, new, count-append d xs (y ∷ ys)) in
    let d_last : d ≢ h.previous y = λ e. absent (h.previous y) d (l ∷ xs) last new1 (sym e) in
    let d_y : d ≢ y = λ e. absent y d (y ∷ ys) (ground arith) new2 (sym e) in
    join g.next g.previous l xs d (y ∷ ys) l
      (redirect h.next h.previous g.next g.previous l xs y d s1 (λ n. omega (arith, once n))
        (insert-next_last h y d) (insert-previous_node h y d d_y)
        (λ n i e. insert-next_other h y d n e (absent n d (l ∷ xs) i new1))
        (λ n i.
          insert-previous_other h y d n
            (apart n y xs (y ∷ ys) i (ground arith) (omega (arith, once n)))
            (absent n d (l ∷ xs) (omega (arith, i)) new1)))
      (
        insert-next_node h y d d_last,
        insert-previous_position h y d,
        frame h.next h.previous g.next g.previous y ys l s2
            (λ n i.
              insert-next_other h y d n
                (λ e. apart (h.previous y) n (l ∷ xs) (y ∷ ys) last i (once (h.previous y)) (sym e))
                (absent n d (y ∷ ys) i new2))
            (λ n i.
              insert-previous_other h y d n
                (apart n y (ys ++ l ∷ []) (y ∷ []) i (ground arith)
                  (omega (arith, once n, count-append n ys (l ∷ []))))
                (absent n d (ys ++ l ∷ []) i
                  (omega (arith, new1, new2, count-append d ys (l ∷ []))))),
      )
