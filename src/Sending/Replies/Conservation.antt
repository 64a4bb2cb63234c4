-- ===== src/Sending/Replies/Conservation.antt =====
-- The acknowledgements that enet_protocol_send_acknowledgements (src/protocol.c) puts into a datagram.
use mathlib.Core.List.{append_assoc}
use enet_revamp.Base.{◌≡◌, refl, ◌∙◌, none, List, [], ◌∷◌, ◌++◌, map, if_lem}
use enet_revamp.State.{Acknowledgement, Session}
use enet_revamp.Sending.Datagram.{Part, Datagram, add_part}
use enet_revamp.Sending.Replies.{
  is_full, reply, end_if_disconnect, reply_all, send_acknowledgements,
}

abbrev pub reply_part : Acknowledgement → Part
reply_part a = record { command = reply a; contents = none }

abbrev Sent : List Acknowledgement → Datagram → Session × Datagram → Type 0
Sent waiting d end =
    end.1.parts ++ map reply_part end.0.peer.acknowledgements ≡ d.parts ++ map reply_part waiting

reply_all-Sent :
    (waiting : List Acknowledgement) (s : Session) (d : Datagram)
    → Sent waiting d (reply_all waiting s d)
unfolding reply_all
reply_all-Sent [] s d = refl
reply_all-Sent (a ∷ waiting) s d =
    if_lem (Sent (a ∷ waiting) d) (is_full s.peer.mtu d) (λ _. refl)
      λ _.
        reply_all-Sent waiting (end_if_disconnect a s) (add_part (reply_part a) 1 8 d)
        ∙ append_assoc d.parts (reply_part a ∷ []) (map reply_part waiting)

-- The replies that enter the datagram, and behind them the replies to the acknowledgements that stay
-- queued, are the replies to all the queued acknowledgements in their order, behind what the
-- datagram held: none is lost, answered twice or overtaken.
pub send_acknowledgements-conserves :
    (s : Session) (d : Datagram)
    → (send_acknowledgements s d).1.parts
        ++ map reply_part (send_acknowledgements s d).0.peer.acknowledgements
      ≡ d.parts ++ map reply_part s.peer.acknowledgements
unfolding send_acknowledgements
send_acknowledgements-conserves s d = reply_all-Sent s.peer.acknowledgements s d
