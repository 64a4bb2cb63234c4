-- ===== src/Handle/Connect/Duplicates.antt =====
-- A connection is made once: enet_protocol_handle_connect of src/protocol.c.
use enet_revamp.Base.{
  ℕ, ◌+◌, ◌≡◌, ◌⊎◌, inl, inr, refl, Bool, true, false, not, ◌&&◌, ◌||◌, ◌==◌, ltb, if◌then◌else◌,
  Option, none, List, [], ◌∷◌, Bool-cases, arith,
}
use enet_revamp.Protocol.{Connect, minimum_channel_count, maximum_channel_count}
use enet_revamp.State.{Address, Peer, Host, is_state, disconnected, connecting}
use enet_revamp.Handle.Connect.{scan, connect_found, handle_connect}

-- A peer in use, not one that is connecting itself, with the given address and connection number.
abbrev pub is_twin : Address → ℕ → Peer → Bool
is_twin from id p =
    not (is_state p.state disconnected)
    && (not (is_state p.state connecting)
        && (p.address.host == from.host && (p.address.port == from.port && p.connect_id == id)))

abbrev pub twins : Address → ℕ → List Peer → ℕ
twins from id [] = 0
twins from id (p ∷ rest) = (if is_twin from id p then 1 else 0) + twins from id rest

past_twin :
    (b : Bool) (result : Option (Option Peer × ℕ)) (n : ℕ)
    → (result ≡ none) ⊎ (n ≡ 0)
    → ((if b then none else result) ≡ none) ⊎ ((if b then 1 else 0) + n ≡ 0)
past_twin true result n h = inl refl
past_twin false result n (inl e) = inl e
past_twin false result n (inr e) = inr (omega arith)

scan-twins :
    (peers : List Peer) (from : Address) (id : ℕ) (free : Option Peer) (duplicates : ℕ)
    → (scan peers from id free duplicates ≡ none) ⊎ (twins from id peers ≡ 0)
unfolding scan
scan-twins [] from id free duplicates = inr refl
scan-twins (p ∷ rest) from id free duplicates =
    past_twin (is_twin from id p) _ _ (scan-twins rest from id _ _)

-- A request to connect is refused with the host unchanged, unless no peer in use, those that are
-- connecting themselves left aside, has the address it comes from and its connection number.
pub handle_connect_once :
    (h : Host) (c : Connect)
    → (handle_connect h c ≡ (none, h)) ⊎ (twins h.received_address c.connect_id h.peers ≡ 0)
unfolding handle_connect connect_found
handle_connect_once h c = elim (scan-twins h.peers h.received_address c.connect_id none 0) [
  | inl refused ↦
      elim (Bool-cases
        (ltb c.channel_count minimum_channel_count || ltb maximum_channel_count c.channel_count)) [
          | inl bad ↦ inl (rw bad)
          | inr good ↦ inl (rw (good, refused))
        ]
  | inr unique ↦ inr unique
]
