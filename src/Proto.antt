-- ===== src/Proto.antt =====
-- proto/element.proto: the messages of a drawn element. A `float` is its 32-bit pattern, which the
-- program copies and never computes with; 0 is the pattern of 0.0. A field of message type has
-- presence, and its getter returns the default message where it is not set.
use xyzwhiteboard.Base.{ℕ, String, Option, none, some, List}

abbrev pub Float : Type 0
Float = ℕ

pub record Point : Type 0 where
  pub x : Float
  pub y : Float

pub record Common : Type 0 where
  pub id : String
  pub stroke_color : String
  pub user_id : String

pub record PathMessage : Type 0 where
  pub common : Option Common
  pub points : List Point

pub record Line : Type 0 where
  pub common : Option Common
  pub start : Option Point
  pub end : Option Point

pub record Circle : Type 0 where
  pub common : Option Common
  pub center : Option Point
  pub radius : Float

pub record Triangle : Type 0 where
  pub common : Option Common
  pub point1 : Option Point
  pub point2 : Option Point
  pub point3 : Option Point

pub record Square : Type 0 where
  pub common : Option Common
  pub topleft : Option Point
  pub side_length : Float

pub record Text : Type 0 where
  pub common : Option Common
  pub center : Option Point
  pub content : String

pub record Comment : Type 0 where
  pub user_id : String
  pub content : String

pub record Picture : Type 0 where
  pub common : Option Common
  pub file_name : String
  pub center : Option Point
  pub top_side_length : Float
  pub bytes : String
  pub comments : List Comment

pub record StickyNote : Type 0 where
  pub common : Option Common
  pub center : Option Point
  pub side_length : Float
  pub content : String

-- The message `Element` is its oneof `element_type`.
pub data Element : Type 0 where
  element_type_not_set : Element
  path : PathMessage → Element
  line : Line → Element
  circle : Circle → Element
  triangle : Triangle → Element
  square : Square → Element
  text : Text → Element
  picture : Picture → Element
  stickynote : StickyNote → Element

-- The getter of a field of type `Point`.
abbrev pub point_or_default : Option Point → Point
point_or_default none = record { x = 0; y = 0 }
point_or_default (some p) = p
