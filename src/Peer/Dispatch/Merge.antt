-- ===== src/Peer/Dispatch/Merge.antt =====
-- Queues of incoming commands that are cut into two without loss and in order.
use mathlib.Core.List.{append_assoc, append-nil}
use enet_revamp.Base.{ℕ, zero, suc, ◌≡◌, refl, ap, subst, List, [], ◌∷◌, ◌++◌, take, drop}
use enet_revamp.State.{IncomingCommand}

-- A list of commands that is cut into two, each in the order of the list: every command of the list
-- goes to one of the two.
pub data Merge : List IncomingCommand → List IncomingCommand → List IncomingCommand → Type 0 where
  none_left : Merge [] [] []
  from_first :
      {xs ys zs : List IncomingCommand} (c : IncomingCommand)
      → Merge xs ys zs
      → Merge (c ∷ xs) ys (c ∷ zs)
  from_second :
      {xs ys zs : List IncomingCommand} (c : IncomingCommand)
      → Merge xs ys zs
      → Merge xs (c ∷ ys) (c ∷ zs)

pub Merge-first :
    {xs ys zs : List IncomingCommand} (c : IncomingCommand)
    → Merge xs ys zs
    → Merge (xs ++ c ∷ []) ys (zs ++ c ∷ [])
Merge-first c none_left = from_first c none_left
Merge-first c (from_first d m) = from_first d (Merge-first c m)
Merge-first c (from_second d m) = from_second d (Merge-first c m)

pub Merge-second :
    {xs ys zs : List IncomingCommand} (c : IncomingCommand)
    → Merge xs ys zs
    → Merge xs (ys ++ c ∷ []) (zs ++ c ∷ [])
Merge-second c none_left = from_second c none_left
Merge-second c (from_first d m) = from_first d (Merge-second c m)
Merge-second c (from_second d m) = from_second d (Merge-second c m)

pub Merge-rest :
    {xs ys zs : List IncomingCommand} (rest : List IncomingCommand)
    → Merge xs ys zs
    → Merge xs (ys ++ rest) (zs ++ rest)
Merge-rest {xs} {ys} {zs} [] m = rw (append-nil ys, append-nil zs) m
Merge-rest {xs} {ys} {zs} (c ∷ rest) m =
    subst (λ z. Merge xs (ys ++ c ∷ rest) z) (append_assoc zs (c ∷ []) rest)
      (subst (λ y. Merge xs y ((zs ++ c ∷ []) ++ rest)) (append_assoc ys (c ∷ []) rest)
        (Merge-rest rest (Merge-second c m)))

pub take-drop : (n : ℕ) (xs : List IncomingCommand) → take n xs ++ drop n xs ≡ xs
take-drop zero xs = refl
take-drop (suc n) [] = refl
take-drop (suc n) (x ∷ xs) = ap (λ ys. x ∷ ys) (take-drop n xs)
