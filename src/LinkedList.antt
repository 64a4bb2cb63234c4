-- ===== src/LinkedList.antt =====
-- Intrusive doubly linked lists: src/list.c and the macros of include/enet/list.h, on a memory of
-- nodes. A node is a number, and a list is its sentinel node. The other modules model the library's
-- queues as `List`; `Refinement` shows that the functions here do to the nodes what those say.
pub mod Segments
pub mod Insertion
pub mod Removal
pub mod Refinement
pub mod Twice
use enet_revamp.Base.{ℕ, zero, suc, ◌+◌, Bool, ◌==◌, if◌then◌else◌}
use enet_revamp.State.{update}

-- The two pointers of every ENetListNode.
pub record Links : Type 0 where
  pub next : ℕ → ℕ
  pub previous : ℕ → ℕ

abbrev pub set_next : ℕ → ℕ → Links → Links
set_next n v h = record h { next = update h.next n v }

abbrev pub set_previous : ℕ → ℕ → Links → Links
set_previous n v h = record h { previous = update h.previous n v }

-- enet_list_begin and enet_list_empty.
abbrev pub begin : ℕ → Links → ℕ
begin sentinel h = h.next sentinel

abbrev pub is_empty_list : ℕ → Links → Bool
is_empty_list sentinel h = begin sentinel h == sentinel

-- enet_list_clear.
unfoldable pub clear : ℕ → Links → Links
clear sentinel h = set_previous sentinel sentinel (set_next sentinel sentinel h)

-- enet_list_insert, which returns `node`.
unfoldable pub insert : ℕ → ℕ → Links → Links
insert position node h =
    let a = set_previous node (h.previous position) h in
    let b = set_next node position a in
    let c = set_next (b.previous node) node b in set_previous position node c

-- enet_list_remove, which returns `position`.
unfoldable pub remove : ℕ → Links → Links
remove position h =
    let a = set_next (h.previous position) (h.next position) h in
    set_previous (a.next position) (a.previous position) a

-- enet_list_move, which returns `first`.
unfoldable pub move : ℕ → ℕ → ℕ → Links → Links
move position first last h =
    let a = set_next (h.previous first) (h.next last) h in
    let b = set_previous (a.next last) (a.previous first) a in
    let c = set_previous first (b.previous position) b in
    let d = set_next last position c in
    let e = set_next (d.previous first) first d in set_previous position last e

-- The loop of enet_list_size, from a node on; `fuel` bounds the nodes that it visits.
unfoldable pub count_from : ℕ → ℕ → ℕ → Links → ℕ
count_from zero sentinel position h = 0
count_from (suc fuel) sentinel position h =
    let rest = count_from fuel sentinel (h.next position) h in
    if position == sentinel then 0 else suc rest

-- enet_list_size.
unfoldable pub size : ℕ → ℕ → Links → ℕ
unfolding count_from
size fuel sentinel h = count_from fuel sentinel (begin sentinel h) h
