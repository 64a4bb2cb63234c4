-- ===== src/LinkedList/Refinement.antt =====
-- The functions of src/list.c on nodes are the operations on lists that the rest of the model uses.
use mathlib.Core.List.{append-nil}
use enet_revamp.Base.{
  ℕ, zero, suc, ◌<◌, ◌≡◌, ◌≢◌, refl, sym, ap, ◌∙◌, subst, List, [], ◌∷◌, ◌++◌, arith, count,
  count-append, length, ==_of_eq, ==_of_ne,
}
use enet_revamp.LinkedList.{Links, clear, insert, remove, count_from, size}
use enet_revamp.LinkedList.Segments.{Segment, Distinct, update_self, absent}
use enet_revamp.LinkedList.Insertion.{insert_last, insert_before}
use enet_revamp.LinkedList.Removal.{remove-chain}

-- The nodes xs are the list with the sentinel l, in this order.
pub record Represents (h : Links) (l : ℕ) (xs : List ℕ) : Type 0 where
  pub chain : Segment h.next h.previous l xs l
  pub distinct : Distinct (l ∷ xs)

-- The node at a position: the first of those that follow, or the sentinel.
abbrev pub first : List ℕ → ℕ → ℕ
first [] l = l
first (x ∷ xs) l = x

-- A call of the library, and what it does to the list: a node that is not in the list enters before a
-- position, a node of the list leaves it, or all do.
pub data Edit (l : ℕ) : List ℕ → (Links → Links) → List ℕ → Type 0 where
  cleared : {xs : List ℕ} → Edit l xs (clear l) []
  inserted :
      (xs ys : List ℕ) (node : ℕ)
      → count node (l ∷ xs ++ ys) ≡ 0
      → Edit l (xs ++ ys) (insert (first ys l) node) (xs ++ node ∷ ys)
  removed :
      (xs : List ℕ) (node : ℕ) (ys : List ℕ) → Edit l (xs ++ node ∷ ys) (remove node) (xs ++ ys)

Distinct-insert :
    (l node : ℕ) (xs ys : List ℕ)
    → count node (l ∷ xs ++ ys) ≡ 0
    → Distinct (l ∷ xs ++ ys)
    → Distinct (l ∷ xs ++ node ∷ ys)
Distinct-insert l node xs ys new h n =
    ground (
      arith,
      h n,
      new,
      count-append n xs ys,
      count-append n xs (node ∷ ys),
      count-append node xs ys,
    )

Distinct-remove :
    (l node : ℕ) (xs ys : List ℕ) → Distinct (l ∷ xs ++ node ∷ ys) → Distinct (l ∷ xs ++ ys)
Distinct-remove l node xs ys h n =
    ground (arith, h n, count-append n xs ys, count-append n xs (node ∷ ys))

clear-Represents : (l : ℕ) (h : Links) → Represents (clear l h) l []
unfolding clear
clear-Represents l h = record {
  chain = (update_self h.next l l, update_self h.previous l l);
  distinct = λ n. ground arith;
}

-- Each call of enet_list_clear, enet_list_insert and enet_list_remove that its conditions allow does
-- to the nodes what the edit says of the list, order included: the pointers forwards and backwards
-- are those of the edited list, and no node stands in it twice.
pub Edit-Represents :
    (h : Links) (l : ℕ) (xs ys : List ℕ) (call : Links → Links)
    → Represents h l xs
    → Edit l xs call ys
    → Represents (call h) l ys
Edit-Represents h l xs ys call r cleared = clear-Represents l h
Edit-Represents h l xs ys call r (inserted front [] node new) = record {
  chain =
      insert_last h l node front
        (subst (λ zs. Segment h.next h.previous l zs l) (append-nil front) r.chain)
        (λ n. omega (arith, r.distinct n, count-append n front []))
        (omega (arith, new, count-append node front []));
  distinct = Distinct-insert l node front [] new r.distinct;
}
Edit-Represents h l xs ys call r (inserted front (y ∷ back) node new) = record {
  chain = insert_before h l node y front back r.chain r.distinct new;
  distinct = Distinct-insert l node front (y ∷ back) new r.distinct;
}
Edit-Represents h l xs ys call r (removed front node back) = record {
  chain = remove-chain h l node front back r.chain r.distinct;
  distinct = Distinct-remove l node front back r.distinct;
}

count_from-length :
    (fuel l a : ℕ) (xs : List ℕ) (h : Links)
    → Segment h.next h.previous a xs l
    → count l xs ≡ 0
    → length xs < fuel
    → count_from fuel l (h.next a) h ≡ length xs
unfolding count_from
count_from-length zero l a xs h s out enough = absurd (omega (arith, enough))
count_from-length (suc fuel) l a [] h (e, f) out enough = rw (==_of_eq (h.next a) l e) refl
count_from-length (suc fuel) l a (x ∷ xs) h (e, f, s) out enough =
    let differs : h.next a ≢ l = λ q. absent x l (x ∷ xs) (ground arith) out (sym e ∙ q) in
    rw (==_of_ne (h.next a) l differs) (
      ap suc (
        ap (λ p. count_from fuel l (h.next p) h) e
        ∙ count_from-length fuel l x xs h s (ground (arith, out)) (omega (arith, enough))))

-- enet_list_size counts the nodes of a list, when its loop is given more rounds than there are nodes.
pub size-length :
    (h : Links) (fuel l : ℕ) (xs : List ℕ)
    → Represents h l xs
    → length xs < fuel
    → size fuel l h ≡ length xs
unfolding size
size-length h fuel l xs r enough =
    count_from-length fuel l l xs h r.chain (ground (arith, r.distinct l)) enough
