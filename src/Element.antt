-- ===== src/Element.antt =====
-- src/base/element.hpp and src/base/element.cpp: the class WhiteboardElements, one record for every
-- kind of element, its constructors and its checked getters. The conversions to and from protobuf
-- and the printing are in the modules below.
pub mod Convert
pub mod Print
pub mod RoundTrip
pub mod Getters
use xyzwhiteboard.Base.{
  ℕ, String, Bool, true, false, Option, none, some, List, [], ◌∷◌, ◌==◌, if◌then◌else◌, get_elem?,
  concat,
}
use xyzwhiteboard.Proto.{Float}

pub data WhiteboardElementsType : Type 0 where
  path line circle triangle square text picture sticky_note null : WhiteboardElementsType

-- CASTTYPE: the value of the enumerator.
abbrev pub cast_type : WhiteboardElementsType → ℕ
cast_type path = 0
cast_type line = 1
cast_type circle = 2
cast_type triangle = 3
cast_type square = 4
cast_type text = 5
cast_type picture = 6
cast_type sticky_note = 7
cast_type null = 16

pub record Point : Type 0 where
  pub x : Float
  pub y : Float

pub record WhiteboardElements : Type 0 where
  pub type : WhiteboardElementsType
  pub pos1 : Point
  pub pos2 : Point
  pub pos3 : Point
  pub side1 : Float
  pub path_points : List Point
  pub content : String
  pub filename : String

-- What a default-initialised object holds in the members that no initialiser sets.
pub record Indeterminate : Type 0 where
  pub pos1 : Point
  pub pos2 : Point
  pub pos3 : Point
  pub side1 : Float

-- `WhiteboardElements e;`
abbrev pub construct : Indeterminate → WhiteboardElements
construct i = record {
  type = null;
  pos1 = i.pos1;
  pos2 = i.pos2;
  pos3 = i.pos3;
  side1 = i.side1;
  path_points = [];
  content = "";
  filename = "";
}

abbrev pub type_dict : List String
type_dict =
    "Path" ∷ "Line" ∷ "Circle" ∷ "Triangle" ∷ "Square" ∷ "Text" ∷ "Picture" ∷ "StickyNote" ∷ []

-- A getter returns, throws ElementsTypeUnmatch, or reads past the end of the table of names.
pub data Access {ℓ} (A : Type ℓ) : Type ℓ where
  value : A → Access A
  unmatch : String → Access A
  out_of_bounds : Access A

infixl 5 ◌>>=◌
abbrev pub ◌>>=◌ {ℓ κ} : {A : Type ℓ} {B : Type κ} → Access A → (A → Access B) → Access B
value a >>= f = f a
unmatch m >>= f = unmatch m
out_of_bounds >>= f = out_of_bounds

abbrev pub same_type : WhiteboardElementsType → WhiteboardElementsType → Bool
same_type a b = cast_type a == cast_type b

unfoldable pub mismatch {ℓ} : {A : Type ℓ} → String → WhiteboardElementsType → Access A
mismatch what t = elim (get_elem? type_dict (cast_type t)) [
  | none ↦ out_of_bounds
  | some name ↦ unmatch (concat what name)
]

-- The test at the head of every getter.
unfoldable pub checked {ℓ} :
    {A : Type ℓ} → WhiteboardElementsType → String → WhiteboardElements → A → Access A
unfolding mismatch
checked wanted what e a = if same_type e.type wanted then value a else mismatch what e.type

-- 1. Path
unfoldable pub new_path : WhiteboardElements → List Point → WhiteboardElements
new_path e points = record e { type = path; path_points = points }

unfoldable pub get_path_points : WhiteboardElements → Access (List Point)
unfolding checked
get_path_points e = checked path "Cannot [path_points] from type" e e.path_points

-- 2. Line
unfoldable pub new_line : WhiteboardElements → Point → Point → WhiteboardElements
new_line e start end = record e { type = line; pos1 = start; pos2 = end }

unfoldable pub get_line_start : WhiteboardElements → Access Point
unfolding checked
get_line_start e = checked line "Cannot [line_start] from type" e e.pos1

unfoldable pub get_line_end : WhiteboardElements → Access Point
unfolding checked
get_line_end e = checked line "Cannot [line_end] from type" e e.pos2

-- 3. Circle
unfoldable pub new_circle : WhiteboardElements → Point → Float → WhiteboardElements
new_circle e center radius = record e { type = circle; pos1 = center; side1 = radius }

unfoldable pub get_circle_center : WhiteboardElements → Access Point
unfolding checked
get_circle_center e = checked circle "Cannot [circle_center] from type" e e.pos1

unfoldable pub get_circle_radius : WhiteboardElements → Access Float
unfolding checked
get_circle_radius e = checked circle "Cannot [circle_radius] from type" e e.side1

-- 4. Triangle
unfoldable pub new_triangle : WhiteboardElements → Point → Point → Point → WhiteboardElements
new_triangle e p1 p2 p3 = record e { type = triangle; pos1 = p1; pos2 = p2; pos3 = p3 }

unfoldable pub get_triangle_points : WhiteboardElements → Access (List Point)
unfolding checked
get_triangle_points e =
    checked triangle "Cannot [triangle_points] from type" e (e.pos1 ∷ e.pos2 ∷ e.pos3 ∷ [])

-- 4. Square
unfoldable pub new_square : WhiteboardElements → Point → Float → WhiteboardElements
new_square e topleft side_length = record e { type = square; pos1 = topleft; side1 = side_length }

-- The overload that takes the corner as two uint32_t: the compiler's conversion to float is the
-- parameter `of_uint32`.
unfoldable pub new_square_at : (ℕ → Float) → WhiteboardElements → ℕ → ℕ → Float → WhiteboardElements
new_square_at of_uint32 e x y side_length = record e {
  type = square;
  pos1 = record { x = of_uint32 x; y = of_uint32 y };
  side1 = side_length;
}

unfoldable pub get_square_side_length : WhiteboardElements → Access Float
unfolding checked
get_square_side_length e = checked square "Cannot [side_length] from type" e e.side1

unfoldable pub get_square_topleft : WhiteboardElements → Access Point
unfolding checked
get_square_topleft e = checked square "Cannot [topleft] from type" e e.pos1

-- 5. Text
unfoldable pub new_text : WhiteboardElements → Point → String → WhiteboardElements
new_text e center content = record e { type = text; pos1 = center; content = content }

unfoldable pub get_text_center : WhiteboardElements → Access Point
unfolding checked
get_text_center e = checked text "Cannot [center] from type" e e.pos1

unfoldable pub get_text_content : WhiteboardElements → Access String
unfolding checked
get_text_content e = checked text "Cannot [content] from type" e e.content

-- Sticky note
unfoldable pub new_stickynote : WhiteboardElements → Point → Float → String → WhiteboardElements
new_stickynote e center side_length content = record e {
  type = sticky_note;
  pos1 = center;
  side1 = side_length;
  content = content;
}

unfoldable pub get_stickynote_center : WhiteboardElements → Access Point
unfolding checked
get_stickynote_center e = checked sticky_note "Cannot [center] from type" e e.pos1

unfoldable pub get_stickynote_side_length : WhiteboardElements → Access Float
unfolding checked
get_stickynote_side_length e = checked sticky_note "Cannot [side_length] from type" e e.side1

unfoldable pub get_stickynote_content : WhiteboardElements → Access String
unfolding checked
get_stickynote_content e = checked sticky_note "Cannot [content] from type" e e.content

-- Picture
unfoldable pub new_picture : WhiteboardElements → Point → String → String → WhiteboardElements
new_picture e center content filename = record e {
  type = picture;
  pos1 = center;
  content = content;
  filename = filename;
}

unfoldable pub get_picture_center : WhiteboardElements → Access Point
unfolding checked
get_picture_center e = checked picture "Cannot [center] from type" e e.pos1

unfoldable pub get_picture_content : WhiteboardElements → Access String
unfolding checked
get_picture_content e = checked picture "Cannot [content] from type" e e.content

unfoldable pub get_picture_filename : WhiteboardElements → Access String
unfolding checked
get_picture_filename e = checked picture "Cannot [content] from type" e e.filename
