-- ===== src/Server/Connection/Frames.antt =====
-- The loop of handle_connection in src/server/server.cpp on the bytes of packets, against the packets.
use xyzwhiteboard.Base.{ℕ, List, [], ◌∷◌, ◌++◌, map, ◌≡◌, refl, ap, ◌∙◌}
use xyzwhiteboard.Base.Fail.{Result, ok, thrown}
use xyzwhiteboard.Action.{PacketMessage}
use xyzwhiteboard.Packet.{WhiteboardPacket}
use xyzwhiteboard.Wire.{Protobuf, DocumentedWire, serialize}
use xyzwhiteboard.Wire.RoundTrip.{parse_packet-serialize}
use xyzwhiteboard.Server.Mongo.{Mongo}
use xyzwhiteboard.Server.State.{Server, Host}
use xyzwhiteboard.Server.Connection.{
  Read, received, Status, reading, caught, handle_packet, handle_connection,
}

module _ (M : Mongo) (host : Host) where
  -- One connection's packets, handled in turn until one throws.
  abbrev pub handle_packets : ℕ → List PacketMessage → Server M.Db → Status × Server M.Db
  handle_packets socket [] s = (reading, s)
  handle_packets socket (packet ∷ packets) s =
      let (result, s') = handle_packet M host packet socket s in
      elim result [ ok done ↦ handle_packets socket packets s' | thrown e ↦ (caught, s') ]

  -- A read that holds a whole written packet, and the bytes that came behind it.
  abbrev pub frame : Protobuf → WhiteboardPacket × List ℕ → Read
  frame P (p, behind) = received (serialize P p ++ behind)

  module _ (P : Protobuf) (D : DocumentedWire P) where
    abbrev pub AllCarried : List (WhiteboardPacket × List ℕ) → Type 0
    AllCarried [] = Unit {0}
    AllCarried (f ∷ fs) = D.Carried f.0.packet × AllCarried fs

    -- What the loop does after a handler, with the rest of the loop.
    abbrev after :
        (Server M.Db → Status × Server M.Db)
        → Result (Unit {0}) × Server M.Db
        → Status × Server M.Db
    after rest r = elim r.0 [ ok done ↦ rest r.1 | thrown e ↦ (caught, r.1) ]

    after-same :
        (f g : Server M.Db → Status × Server M.Db)
        → ((s : Server M.Db) → f s ≡ g s)
        → (r : Result (Unit {0})) (s : Server M.Db) → after f (r, s) ≡ after g (r, s)
    after-same f g same (ok done) s = same s
    after-same f g same (thrown e) s = refl

    -- If each read holds a whole packet, the loop on the bytes handles the messages of these packets
    -- one after another, until a handler throws; what came behind a packet in the same read is lost.
    pub handle_connection-frames :
        (socket : ℕ) (frames : List (WhiteboardPacket × List ℕ)) (s : Server M.Db)
        → AllCarried frames
        → handle_connection M host P socket (map (frame P) frames) s
          ≡ handle_packets socket (map (λ f. f.0.packet) frames) s
    unfolding handle_connection
    handle_connection-frames socket [] s carried = refl
    handle_connection-frames socket ((p, behind) ∷ fs) s (c, cs) =
        ap
          (λ (m : PacketMessage).
            after (λ s'. handle_connection M host P socket (map (frame P) fs) s')
              (handle_packet M host m socket s))
          (parse_packet-serialize P D p c behind)
        ∙ after-same (λ s'. handle_connection M host P socket (map (frame P) fs) s')
            (λ s'. handle_packets socket (map (λ f. f.0.packet) fs) s')
            (λ s'. handle_connection-frames socket fs s' cs)
            (handle_packet M host p.packet socket s).0 (handle_packet M host p.packet socket s).1
