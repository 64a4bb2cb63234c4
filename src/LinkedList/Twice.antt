-- ===== src/LinkedList/Twice.antt =====
-- enet_list_insert of src/list.c on a node that is in the list already: the pointers are those of no
-- list any more.
use enet_revamp.Base.{
  ℕ, ◌≡◌, ◌≢◌, sym, ap, ◌∙◌, subst, List, [], ◌∷◌, ◌++◌, arith, count, count-append,
}
use enet_revamp.LinkedList.{Links, insert}
use enet_revamp.LinkedList.Segments.{Segment, split, last_in}
use enet_revamp.LinkedList.Refinement.{Represents}

-- The node at the end of a segment is the next of its previous one.
end_next :
    (next previous : ℕ → ℕ) (a : ℕ) (xs : List ℕ) (b : ℕ)
    → Segment next previous a xs b
    → next (previous b) ≡ b
end_next next previous a [] b (e, f) = ap next f ∙ e
end_next next previous a (x ∷ xs) b (e, f, s) = end_next next previous x xs b s

module _ (h : Links) (l x : ℕ) (out : x ≢ l) where
  -- The pointers after the call.
  next_x : x ≢ h.previous l → (insert l x h).next x ≡ l
  unfolding insert
  next_x ne = ground arith

  next_last : h.previous l ≡ x → (insert l x h).next x ≡ x
  unfolding insert
  next_last e = ground arith

  previous_end : (insert l x h).previous l ≡ x
  unfolding insert
  previous_end = ground arith

  previous_x : (insert l x h).previous x ≡ h.previous l
  unfolding insert
  previous_x = ground arith

  next_other : (n : ℕ) → n ≢ x → n ≢ h.previous l → (insert l x h).next n ≡ h.next n
  unfolding insert
  next_other n a b = ground arith

  -- Forwards the chain comes to the node from one that it does not point back at.
  broken :
      (a : ℕ) (front back ys : List ℕ)
      → Segment h.next h.previous a (front ++ x ∷ back) l
      → Segment (insert l x h).next (insert l x h).previous a ys l
      → count x (a ∷ front) ≡ 0
      → count (h.previous l) (a ∷ front) ≡ 0
      → count l front ≡ 0
      → ⊥
  broken a [] back [] (e, f, s) (g, k) c d m =
      out (sym (next_other a (ground arith) (ground arith) ∙ e) ∙ g)
  broken a [] back (y ∷ ys) (e, f, s) (g, k, t) c d m =
      let same : y ≡ x = sym g ∙ (next_other a (ground arith) (ground arith) ∙ e) in
      let behind : h.previous l ≡ a =
        sym previous_x ∙ (ap (insert l x h).previous (sym same) ∙ k) in
      ground (arith, behind)
  broken a (z ∷ front) back [] (e, f, s) (g, k) c d m =
      let same : z ≡ l = sym (next_other a (ground arith) (ground arith) ∙ e) ∙ g in
      ground (arith, same)
  broken a (z ∷ front) back (y ∷ ys) (e, f, s) (g, k, t) c d m =
      let same : y ≡ z = sym g ∙ (next_other a (ground arith) (ground arith) ∙ e) in
      broken z front back ys s
        (subst (λ n. Segment (insert l x h).next (insert l x h).previous n ys l) same t)
        (ground (arith, c)) (ground (arith, d)) (ground (arith, m))

node_ne : (h : Links) (l x : ℕ) (front back : List ℕ) → Represents h l (front ++ x ∷ back) → x ≢ l
node_ne h l x front back r e = ground (arith, r.distinct l, count-append l front (x ∷ back), e)

-- Inserting a node of a list at the end of that list leaves pointers that are no list.
pub insert_again :
    (h : Links) (l x : ℕ) (front back ys : List ℕ)
    → Represents h l (front ++ x ∷ back)
    → ¬ Represents (insert l x h) l ys
insert_again h l x front [] ys r q =
    let out : x ≢ l = node_ne h l x front [] r in
    let last = (split h.next h.previous l front x [] l r.chain).1.1 in
    out (
      sym (next_last h l x out last)
      ∙ (ap (insert l x h).next (sym (previous_end h l x out))
          ∙ end_next (insert l x h).next (insert l x h).previous l ys l q.chain))
insert_again h l x front (z ∷ back) ys r q =
    let out : x ≢ l = node_ne h l x front (z ∷ back) r in
    let (e, f, s) = (split h.next h.previous l front x (z ∷ back) l r.chain).1 in
    let inside = last_in h.next h.previous z back l s in
    broken h l x out l front (z ∷ back) ys r.chain q.chain
      (ground (arith, r.distinct x, count-append x front (x ∷ z ∷ back)))
      (ground (
        arith,
        r.distinct (h.previous l),
        count-append (h.previous l) front (x ∷ z ∷ back),
        inside,
      ))
      (ground (arith, r.distinct l, count-append l front (x ∷ z ∷ back)))
