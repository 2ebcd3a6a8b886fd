-- ===== src/Element/Convert.antt =====
-- src/base/element.cpp: WhiteboardElements::to_protobuf and from_protobuf.
use xyzwhiteboard.Base.{Option, none, some, List, [], ◌∷◌, map}
use xyzwhiteboard.Proto as Message
use xyzwhiteboard.Proto.{
  Element, element_type_not_set, path, line, circle, triangle, square, text, picture, stickynote,
  point_or_default,
}
use xyzwhiteboard.Element.{
  WhiteboardElements, WhiteboardElementsType, Point, Indeterminate, construct, Access, value, ◌>>=◌,
  get_path_points, get_line_start, get_line_end, get_circle_center, get_circle_radius,
  get_triangle_points, get_square_side_length, get_square_topleft, get_text_center,
  get_text_content, get_picture_center, get_picture_content, get_picture_filename,
  get_stickynote_center, get_stickynote_side_length, get_stickynote_content, new_path, new_line,
  new_circle, new_triangle, new_square, new_text, new_stickynote, new_picture, out_of_bounds,
}

-- `point->set_x(p.x); point->set_y(p.y);`
abbrev pub to_message : Point → Message.Point
to_message p = record { x = p.x; y = p.y }

-- `{point.x(), point.y()}`
abbrev pub of_message : Message.Point → Point
of_message p = record { x = p.x; y = p.y }

-- `{p.x(), p.y()}` for the getter `p` of a field of the message.
abbrev pub of_field : Option Message.Point → Point
of_field p = of_message (point_or_default p)

-- The cases of the `switch`.
convert_triangle : List Point → Access Element
convert_triangle (p0 ∷ p1 ∷ p2 ∷ ps) = value (
    triangle (record {
      common = none;
      point1 = some (to_message p0);
      point2 = some (to_message p1);
      point3 = some (to_message p2);
    }))
convert_triangle _ = out_of_bounds

convert : WhiteboardElementsType → WhiteboardElements → Access Element
unfolding convert_triangle
convert WhiteboardElementsType.path e = do
  points ← get_path_points e
  value (path (record { common = none; points = map to_message points }))
convert WhiteboardElementsType.line e = do
  start_point ← get_line_start e
  end_point ← get_line_end e
  value (
      line (record {
        common = none;
        start = some (to_message start_point);
        end = some (to_message end_point);
      }))
convert WhiteboardElementsType.circle e = do
  center ← get_circle_center e
  radius ← get_circle_radius e
  value (circle (record { common = none; center = some (to_message center); radius = radius }))
convert WhiteboardElementsType.triangle e = do
  points ← get_triangle_points e
  convert_triangle points
convert WhiteboardElementsType.square e = do
  topleft ← get_square_topleft e
  side_length ← get_square_side_length e
  value (
      square
        (record { common = none; topleft = some (to_message topleft); side_length = side_length }))
convert WhiteboardElementsType.text e = do
  center ← get_text_center e
  text_content ← get_text_content e
  value (text (record { common = none; center = some (to_message center); content = e.content }))
convert WhiteboardElementsType.picture e = do
  center ← get_picture_center e
  content ← get_picture_content e
  filename ← get_picture_filename e
  value (
      picture (record {
        common = none;
        file_name = filename;
        center = some (to_message center);
        top_side_length = 0;
        bytes = content;
        comments = [];
      }))
convert WhiteboardElementsType.sticky_note e = do
  center ← get_stickynote_center e
  side_length ← get_stickynote_side_length e
  content ← get_stickynote_content e
  value (
      stickynote (record {
        common = none;
        center = some (to_message center);
        side_length = side_length;
        content = content;
      }))
convert WhiteboardElementsType.null e = value element_type_not_set

unfoldable pub to_protobuf : WhiteboardElements → Access Element
unfolding convert get_path_points get_line_start get_line_end get_circle_center get_circle_radius
    get_triangle_points get_square_side_length get_square_topleft get_text_center get_text_content
    get_picture_center get_picture_content get_picture_filename get_stickynote_center
    get_stickynote_side_length get_stickynote_content
to_protobuf e = convert e.type e

-- `self` is the object that the method is called on, `i` what the new object starts with. In the
-- case of a picture the third argument of `new_picture` is the member `filename` of `self`.
unfoldable pub from_protobuf : Indeterminate → WhiteboardElements → Element → WhiteboardElements
unfolding new_path new_line new_circle new_triangle new_square new_text new_stickynote new_picture
from_protobuf i self (path m) = new_path (construct i) (map of_message m.points)
from_protobuf i self (line m) = new_line (construct i) (of_field m.start) (of_field m.end)
from_protobuf i self (circle m) = new_circle (construct i) (of_field m.center) m.radius
from_protobuf i self (triangle m) =
    new_triangle (construct i) (of_field m.point1) (of_field m.point2) (of_field m.point3)
from_protobuf i self (square m) = new_square (construct i) (of_field m.topleft) m.side_length
from_protobuf i self (text m) = new_text (construct i) (of_field m.center) m.content
from_protobuf i self (stickynote m) =
    new_stickynote (construct i) (of_field m.center) m.side_length m.content
from_protobuf i self (picture m) =
    new_picture (construct i) (of_field m.center) m.bytes self.filename
from_protobuf i self element_type_not_set = construct i
