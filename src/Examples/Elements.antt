-- ===== src/Examples/Elements.antt =====
-- Uses of the theorems on src/base/element.cpp at concrete elements.
use xyzwhiteboard.Base.{none, some, [], ◌∷◌, ◌≡◌, ◌≢◌, refl, arith}
use xyzwhiteboard.Proto.{Element}
use xyzwhiteboard.Element.{
  WhiteboardElements, WhiteboardElementsType, Point, Indeterminate, construct, value, unmatch,
}
use xyzwhiteboard.Element.Convert.{to_protobuf, from_protobuf}
use xyzwhiteboard.Element.Print.{Format, print, rule, print-eq-value_iff}
use xyzwhiteboard.Element.RoundTrip.{
  shape, picture, from_protobuf-to_protobuf, from_protobuf-picture,
}
use xyzwhiteboard.Element.Getters.{Stored, RefusesOthers, getters_lem}

abbrev pub corner : Point
corner = record { x = 1; y = 2 }

abbrev other_corner : Point
other_corner = record { x = 5; y = 7 }

abbrev memory_content : Indeterminate
memory_content = record { pos1 = other_corner; pos2 = corner; pos3 = corner; side1 = 9 }

abbrev pub blank_element : WhiteboardElements
blank_element = construct memory_content

abbrev pub diagonal : WhiteboardElements
diagonal = record blank_element {
  type = WhiteboardElementsType.line;
  pos1 = corner;
  pos2 = other_corner;
}

abbrev pub photo : WhiteboardElements
photo = record blank_element {
  type = WhiteboardElementsType.picture;
  pos1 = corner;
  content = "bytes";
  filename = "cat.png";
}

abbrev format : Format
format = record { to_string = λ x. "x"; put_float = λ x. "y"; put_size = λ n. "n" }

abbrev pub drawn_text : Element
drawn_text = Element.text (record {
  common = some (record { id = "1"; stroke_color = "red"; user_id = "7" });
  center = none;
  content = "hello";
})

from_protobuf-to_protobuf_example :
    (m : Element) × (to_protobuf diagonal ≡ value m)
    × (shape (from_protobuf memory_content photo m) ≡ shape diagonal)
from_protobuf-to_protobuf_example =
    from_protobuf-to_protobuf memory_content photo diagonal (ground arith)

from_protobuf-picture_example :
    (m : Element) × (to_protobuf photo ≡ value m)
    × (shape (from_protobuf memory_content blank_element m) ≡ picture corner "bytes" "")
    × (shape (from_protobuf memory_content blank_element m) ≡ shape photo
        → blank_element.filename ≡ photo.filename)
from_protobuf-picture_example = from_protobuf-picture memory_content blank_element photo refl

print-eq-value_iff_example :
    ((print format photo).1 ≡ value tt → photo.type ≢ WhiteboardElementsType.picture)
    × (photo.type ≢ WhiteboardElementsType.picture → (print format photo).1 ≡ value tt)
    × (photo.type ≡ WhiteboardElementsType.picture
        → print format photo ≡ (rule ∷ [], unmatch "Cannot [center] from typePicture"))
print-eq-value_iff_example = print-eq-value_iff format photo

getters_lem_example :
    Stored diagonal (corner ∷ []) corner other_corner corner 9 "a" "b" × RefusesOthers diagonal
getters_lem_example = getters_lem diagonal (corner ∷ []) corner other_corner corner 9 "a" "b"
