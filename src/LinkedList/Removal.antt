-- ===== src/LinkedList/Removal.antt =====
-- The pointers that enet_list_remove (src/list.c) leaves.
use mathlib.Core.List.{append-nil}
use enet_revamp.Base.{
  ℕ, ◌+◌, ◌≤◌, ◌<◌, ◌≡◌, ◌≢◌, refl, sym, ap, ◌∙◌, List, [], ◌∷◌, ◌++◌, arith, count, count-append,
}
use enet_revamp.State.{update}
use enet_revamp.LinkedList.{Links, remove}
use enet_revamp.LinkedList.Segments.{
  Segment, Distinct, join, split, last_in, frame, redirect, update_self, update_ne, apart, absent,
}

remove-next : (h : Links) (p : ℕ) → (remove p h).next ≡ update h.next (h.previous p) (h.next p)
unfolding remove
remove-next h p = refl

remove-previous :
    (h : Links) (p : ℕ)
    → p ≢ h.previous p
    → (remove p h).previous ≡ update h.previous (h.next p) (h.previous p)
unfolding remove
remove-previous h p e =
    ap (λ k. update h.previous k (h.previous p)) (update_ne h.next (h.previous p) (h.next p) p e)

-- The part in front of a removed node p, which now ends at the node b behind p.
remove_front :
    (h : Links) (l p b : ℕ) (xs : List ℕ)
    → Segment h.next h.previous l xs p
    → Distinct (l ∷ xs)
    → count p (l ∷ xs) ≡ 0
    → h.next p ≡ b
    → ((n : ℕ) → 0 < count n xs → n ≢ b)
    → Segment (remove p h).next (remove p h).previous l xs b
remove_front h l p b xs s distinct out e apart_b =
    let last = last_in h.next h.previous l xs p s in
    let f = remove-previous h p (λ q. absent (h.previous p) p (l ∷ xs) last out (sym q)) in
    redirect h.next h.previous (remove p h).next (remove p h).previous l xs p b s distinct
      (ap (λ g. g (h.previous p)) (remove-next h p)
        ∙ (update_self h.next (h.previous p) (h.next p) ∙ e))
      (ap (λ g. g b) f
        ∙ (ap (λ k. update h.previous k (h.previous p) b) e
            ∙ update_self h.previous b (h.previous p)))
      (λ n i q. ap (λ g. g n) (remove-next h p) ∙ update_ne h.next (h.previous p) (h.next p) n q)
      (λ n i.
        ap (λ g. g n) f
        ∙ update_ne h.previous (h.next p) (h.previous p) n (λ q. apart_b n i (q ∙ e)))

pub remove-chain :
    (h : Links) (l p : ℕ) (xs ys : List ℕ)
    → Segment h.next h.previous l (xs ++ p ∷ ys) l
    → Distinct (l ∷ xs ++ p ∷ ys)
    → Segment (remove p h).next (remove p h).previous l (xs ++ ys) l
remove-chain h l p xs [] s distinct =
    let (s1, s2) = split h.next h.previous l xs p [] l s in
    let once : (n : ℕ) → count n (l ∷ xs) + count n (p ∷ []) ≤ 1 =
      λ n. omega (arith, distinct n, count-append n xs (p ∷ [])) in
    rw (append-nil xs) (
      remove_front h l p l xs s1 (λ n. omega (arith, once n)) (ground (arith, once p)) s2.0
        (λ n i. apart n l xs (l ∷ []) i (ground arith) (omega (arith, once n))))
remove-chain h l p xs (z ∷ zs) s distinct =
    let (s1, s2) = split h.next h.previous l xs p (z ∷ zs) l s in
    let once : (n : ℕ) → count n (l ∷ xs) + count n (p ∷ z ∷ zs) ≤ 1 =
      λ n. omega (arith, distinct n, count-append n xs (p ∷ z ∷ zs)) in
    let last = last_in h.next h.previous l xs p s1 in
    let f = remove-previous h p (λ q.
      apart (h.previous p) p (l ∷ xs) (p ∷ []) last (ground arith)
        (omega (arith, once (h.previous p))) (sym q)) in
    join (remove p h).next (remove p h).previous l xs z zs l
      (remove_front h l p z xs s1 (λ n. omega (arith, once n)) (ground (arith, once p)) s2.0
        (λ n i. apart n z xs (z ∷ []) i (ground arith) (omega (arith, once n))))
      (frame h.next h.previous (remove p h).next (remove p h).previous z zs l s2.2
        (λ n i.
          ap (λ g. g n) (remove-next h p)
          ∙ update_ne h.next (h.previous p) (h.next p) n (λ q.
            apart (h.previous p) n (l ∷ xs) (z ∷ zs) last i (omega (arith, once (h.previous p)))
              (sym q)))
        (λ n i.
          ap (λ g. g n) f
          ∙ update_ne h.previous (h.next p) (h.previous p) n (λ q.
            apart n z (zs ++ l ∷ []) (z ∷ []) i (ground arith)
              (omega (arith, once n, count-append n zs (l ∷ []))) (q ∙ s2.0))))
