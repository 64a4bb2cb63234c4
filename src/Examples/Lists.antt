-- ===== src/Examples/Lists.antt =====
-- An example of the linked lists.
use enet_revamp.Base.{refl, [], ◌∷◌, arith, ◌==◌, if◌then◌else◌}
use enet_revamp.LinkedList.{Links, remove}
use enet_revamp.LinkedList.Refinement.{Represents, removed, Edit-Represents}

-- The list 1, 2 with the sentinel 0.
abbrev links : Links
links = record {
  next = λ n. if n == 0 then 1 else if n == 1 then 2 else 0;
  previous = λ n. if n == 0 then 2 else if n == 1 then 0 else 1;
}

links-Represents : Represents links 0 (1 ∷ 2 ∷ [])
links-Represents = record {
  chain = (refl, refl, (refl, refl, (refl, refl)));
  distinct = λ n. ground arith;
}

Edit-Represents_example : Represents (remove 1 links) 0 (2 ∷ [])
Edit-Represents_example =
    Edit-Represents links 0 (1 ∷ 2 ∷ []) (2 ∷ []) (remove 1) links-Represents
      (removed [] 1 (2 ∷ []))
