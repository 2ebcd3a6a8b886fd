-- ===== src/Element/RoundTrip.antt =====
-- Converting an element to its protobuf message and back (src/base/element.cpp).
use xyzwhiteboard.Base.{
  String, Option, none, some, List, [], ◌∷◌, map, ◌≡◌, ◌≢◌, refl, arith, ap, sym, ◌∙◌,
}
use xyzwhiteboard.Proto as Message
use xyzwhiteboard.Proto.{Element, Float, point_or_default}
use xyzwhiteboard.Element.{WhiteboardElements, WhiteboardElementsType, Point, Indeterminate, value}
use xyzwhiteboard.Element.Convert.{to_protobuf, from_protobuf, to_message, of_message}

-- What a user sees of an element: its kind and the members that the kind uses.
pub data Shape : Type 0 where
  path : List Point → Shape
  line : Point → Point → Shape
  circle : Point → Float → Shape
  triangle : Point → Point → Point → Shape
  square : Point → Float → Shape
  text : Point → String → Shape
  picture : Point → String → String → Shape
  sticky_note : Point → Float → String → Shape
  empty : Shape

abbrev shape_of : WhiteboardElementsType → WhiteboardElements → Shape
shape_of WhiteboardElementsType.path e = path e.path_points
shape_of WhiteboardElementsType.line e = line e.pos1 e.pos2
shape_of WhiteboardElementsType.circle e = circle e.pos1 e.side1
shape_of WhiteboardElementsType.triangle e = triangle e.pos1 e.pos2 e.pos3
shape_of WhiteboardElementsType.square e = square e.pos1 e.side1
shape_of WhiteboardElementsType.text e = text e.pos1 e.content
shape_of WhiteboardElementsType.picture e = picture e.pos1 e.content e.filename
shape_of WhiteboardElementsType.sticky_note e = sticky_note e.pos1 e.side1 e.content
shape_of WhiteboardElementsType.null e = empty

abbrev pub shape : WhiteboardElements → Shape
shape e = shape_of e.type e

-- The file name of a picture is replaced.
abbrev renamed : String → Shape → Shape
renamed name (picture center content filename) = picture center content name
renamed name s = s

map-of_message-to_message : (ps : List Point) → map of_message (map to_message ps) ≡ ps
map-of_message-to_message [] = refl
map-of_message-to_message (p ∷ ps) = ap (λ r. p ∷ r) (map-of_message-to_message ps)

map-to_message-of_message : (ps : List Message.Point) → map to_message (map of_message ps) ≡ ps
map-to_message-of_message [] = refl
map-to_message-of_message (p ∷ ps) = ap (λ r. p ∷ r) (map-to_message-of_message ps)

renamed-shape :
    (e : WhiteboardElements) (name : String)
    → e.type ≢ WhiteboardElementsType.picture
    → renamed name (shape e) ≡ shape e
renamed-shape e name h = ground arith

filename_of :
    (e : WhiteboardElements) (name : String)
    → e.type ≡ WhiteboardElementsType.picture
    → shape e ≡ renamed name (shape e)
    → name ≡ e.filename
filename_of e name h same = ground arith

module _ (i : Indeterminate) (self e : WhiteboardElements) where
  abbrev Returns : WhiteboardElements → Type 0
  Returns x =
      (m : Element) × (to_protobuf x ≡ value m)
      × (shape (from_protobuf i self m) ≡ renamed self.filename (shape x))

  Returns-of_type : (t : WhiteboardElementsType) → Returns (record e { type = t })
  unfolding to_protobuf from_protobuf
  Returns-of_type WhiteboardElementsType.path =
      (_, refl, ap path (map-of_message-to_message e.path_points))
  Returns-of_type WhiteboardElementsType.line = (_, refl, refl)
  Returns-of_type _ = (_, refl, refl)

  -- The conversion to protobuf always returns, and reading its result gives the same shape, but for
  -- the file name of a picture, which is that of the object that reads.
  from_protobuf-to_protobuf_renamed : Returns e
  from_protobuf-to_protobuf_renamed = Returns-of_type e.type

-- The conversion to protobuf returns.
pub to_protobuf_returns : (e : WhiteboardElements) → (m : Element) × (to_protobuf e ≡ value m)
to_protobuf_returns e =
    let i : Indeterminate = record {
      pos1 = e.pos1;
      pos2 = e.pos2;
      pos3 = e.pos3;
      side1 = e.side1;
    } in
    let (m, sent, read) = from_protobuf-to_protobuf_renamed i e e in (m, sent)

-- An element that is no picture converts to a message, and the message reads back with the same
-- shape, whatever object reads it.
pub from_protobuf-to_protobuf :
    (i : Indeterminate) (self e : WhiteboardElements)
    → e.type ≢ WhiteboardElementsType.picture
    → (m : Element) × (to_protobuf e ≡ value m) × (shape (from_protobuf i self m) ≡ shape e)
from_protobuf-to_protobuf i self e h =
    let (m, sent, read) = from_protobuf-to_protobuf_renamed i self e in
    (m, sent, read ∙ renamed-shape e self.filename h)

-- A picture converts to a message, and the message reads back with the picture's centre and
-- content, but with the file name of the object that reads: the shapes agree only if that object
-- had this file name already.
pub from_protobuf-picture :
    (i : Indeterminate) (self e : WhiteboardElements)
    → e.type ≡ WhiteboardElementsType.picture
    → (m : Element) × (to_protobuf e ≡ value m)
      × (shape (from_protobuf i self m) ≡ picture e.pos1 e.content self.filename)
      × (shape (from_protobuf i self m) ≡ shape e → self.filename ≡ e.filename)
from_protobuf-picture i self e h =
    let (m, sent, read) = from_protobuf-to_protobuf_renamed i self e in
    (m, sent, read ∙ rw h refl, λ same. filename_of e self.filename h (sym same ∙ read))

-- The fields that the class does not keep are left out, points that were not set are, and a
-- picture has the file name of the object that read it.
abbrev set_point : Option Message.Point → Option Message.Point
set_point p = some (point_or_default p)

pub kept : String → Element → Element
kept name (Element.path m) = Element.path (record { common = none; points = m.points })
kept name (Element.line m) =
    Element.line (record { common = none; start = set_point m.start; end = set_point m.end })
kept name (Element.circle m) =
    Element.circle (record { common = none; center = set_point m.center; radius = m.radius })
kept name (Element.triangle m) = Element.triangle (record {
  common = none;
  point1 = set_point m.point1;
  point2 = set_point m.point2;
  point3 = set_point m.point3;
})
kept name (Element.square m) =
    Element.square
      (record { common = none; topleft = set_point m.topleft; side_length = m.side_length })
kept name (Element.text m) =
    Element.text (record { common = none; center = set_point m.center; content = m.content })
kept name (Element.picture m) = Element.picture (record {
  common = none;
  file_name = name;
  center = set_point m.center;
  top_side_length = 0;
  bytes = m.bytes;
  comments = [];
})
kept name (Element.stickynote m) = Element.stickynote (record {
  common = none;
  center = set_point m.center;
  side_length = m.side_length;
  content = m.content;
})
kept name Element.element_type_not_set = Element.element_type_not_set

-- A message that is read and converted again is the message less what the class does not keep: its
-- kind, points, lengths and texts stay, but a picture's file name becomes the reading object's.
to_protobuf-from_protobuf :
    (i : Indeterminate) (self : WhiteboardElements) (m : Element)
    → to_protobuf (from_protobuf i self m) ≡ value (kept self.filename m)
unfolding to_protobuf from_protobuf kept
to_protobuf-from_protobuf i self (Element.path m) = rw (map-to_message-of_message m.points) refl
to_protobuf-from_protobuf i self (Element.line m) = refl
to_protobuf-from_protobuf i self _ = refl
