-- ===== src/Examples/Draw.antt =====
-- A use of the theorem on adding an element, at concrete clients.
use xyzwhiteboard.Base.{
  ℕ, String, none, some, [], ◌∷◌, ◌++◌, ◌≡◌, ◌≢◌, refl, arith, sym, ap, ◌∙◌, contains,
  if◌then◌else◌,
}
use xyzwhiteboard.Element.{WhiteboardElements, WhiteboardElementsType, Access, value}
use xyzwhiteboard.Element.Convert.{to_protobuf}
use xyzwhiteboard.Element.RoundTrip.{to_protobuf_returns}
use xyzwhiteboard.Proto.{Element}
use xyzwhiteboard.Action.{PacketMessage, action_of, get_broadcast}
use xyzwhiteboard.Client.{Client}
use xyzwhiteboard.Server.State.{Server, Host}
use xyzwhiteboard.Server.Mongo.{WhiteboardDoc, push_elements, apply_operators}
use xyzwhiteboard.Server.Sessions.{find}
use xyzwhiteboard.Server.Elements.{elements_packet, stored_elements}
use xyzwhiteboard.Client.Receive.Answers.{adds_element, send}
use xyzwhiteboard.Server.State.{for_socket}
use xyzwhiteboard.Exchange.{exchange}
use xyzwhiteboard.Exchange.Draw.{draw_exchange}
use xyzwhiteboard.Examples.Memory.{Memory, memory, documented, host}
use xyzwhiteboard.Examples.Boards.{s, doc}
use xyzwhiteboard.Examples.Elements.{blank_element, corner}
use xyzwhiteboard.Examples.Clients.{write, writes, fresh, stack, element_stack}

abbrev greeting : WhiteboardElements
greeting = record blank_element {
  type = WhiteboardElementsType.text;
  pos1 = corner;
  content = "hi";
}

-- The message of a text at the corner.
abbrev message_of : String → Element
message_of content = Element.text (record {
  common = none;
  center = some (record { x = corner.x; y = corner.y });
  content = content;
})

abbrev text_of : Element → String
text_of (Element.text m) = m.content
text_of _ = ""

-- This serialization keeps the content, and reads it as a text at the corner.
abbrev corner_host : Host
corner_host = record host { serialize_element = text_of; parse_element = message_of }

abbrev painter : Client
painter = record (fresh 7) { whiteboard_id = "o" }

value_of : Access Element → Element
value_of (value m) = m
value_of _ = Element.element_type_not_set

converts : to_protobuf greeting ≡ value (message_of "hi")
unfolding to_protobuf
converts = refl

drawn_lem : (to_protobuf_returns greeting).0 ≡ message_of "hi"
unfolding value_of
drawn_lem = ap value_of (sym (to_protobuf_returns greeting).1 ∙ converts)

-- After the client at socket 6 has drawn its greeting on "o".
abbrev painted : Client × Server Memory
painted =
    exchange memory corner_host element_stack stack (send write writes (adds_element greeting)) 6
      painter s

abbrev drawn : Element
drawn = (to_protobuf_returns greeting).0

abbrev with_drawn : WhiteboardDoc
with_drawn = apply_operators (push_elements (text_of drawn) ∷ []) doc

abbrev packet : PacketMessage
packet = (elements_packet memory corner_host with_drawn 100).packet

draw_exchange_example :
    ((b : ℕ)
      → b ≢ 6
      → for_socket b painted.1.sent ≡ (if contains b (4 ∷ 6 ∷ []) then packet ∷ [] else []))
    × ((get_broadcast (action_of packet)).elements
        ≡ stored_elements memory corner_host doc ++ drawn ∷ [])
    × (documented.whiteboard painted.1.db 0 ≡ some with_drawn)
unfolding find contains
draw_exchange_example =
    draw_exchange memory documented corner_host write writes element_stack stack 6 painter s 0 doc
      (4 ∷ 6 ∷ []) greeting refl refl refl refl ((λ e. cc), (omega arith, (omega arith, tt)))
      (rw drawn_lem refl)
