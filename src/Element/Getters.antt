-- ===== src/Element/Getters.antt =====
-- The checked getters of src/base/element.cpp against the constructors.
use xyzwhiteboard.Base.{
  String, some, List, [], ◌∷◌, ◌≡◌, ◌≢◌, ◌⊎◌, inl, inr, refl, arith, get_elem?, concat,
}
use xyzwhiteboard.Proto.{Float}
use xyzwhiteboard.Element.{
  WhiteboardElements, WhiteboardElementsType, path, line, circle, triangle, square, text, picture,
  sticky_note, null, Point, Access, value, unmatch, out_of_bounds, checked, mismatch, cast_type,
  type_dict, get_path_points, get_line_start, get_line_end, get_circle_center, get_circle_radius,
  get_triangle_points, get_square_side_length, get_square_topleft, get_text_center,
  get_text_content, get_picture_center, get_picture_content, get_picture_filename,
  get_stickynote_center, get_stickynote_side_length, get_stickynote_content, new_path, new_line,
  new_circle, new_triangle, new_square, new_text, new_stickynote, new_picture,
}

cast_type_injective : (a b : WhiteboardElementsType) → cast_type a ≡ cast_type b → a ≡ b
cast_type_injective a b h = ground arith

-- The exception that a getter of another kind raises, or the read past the end of the table.
abbrev pub Refused : {A : Type 0} → WhiteboardElementsType → String → Access A → Type 0
Refused t what r =
    ((t ≡ null) × (r ≡ out_of_bounds))
    ⊎ ((name : String) × (get_elem? type_dict (cast_type t) ≡ some name)
        × (r ≡ unmatch (concat what name)))

mismatch-Refused :
    {A : Type 0} (what : String) (t : WhiteboardElementsType)
    → Refused {A = A} t what (mismatch what t)
unfolding mismatch
mismatch-Refused what null = inl (refl, refl)
mismatch-Refused what path = inr ("Path", refl, refl)
mismatch-Refused what line = inr ("Line", refl, refl)
mismatch-Refused what circle = inr ("Circle", refl, refl)
mismatch-Refused what triangle = inr ("Triangle", refl, refl)
mismatch-Refused what square = inr ("Square", refl, refl)
mismatch-Refused what text = inr ("Text", refl, refl)
mismatch-Refused what picture = inr ("Picture", refl, refl)
mismatch-Refused what sticky_note = inr ("StickyNote", refl, refl)

checked-ne :
    {A : Type 0} (wanted : WhiteboardElementsType) (what : String) (e : WhiteboardElements) (a : A)
    → e.type ≢ wanted
    → checked wanted what e a ≡ mismatch what e.type
unfolding checked
checked-ne wanted what e a h = ground (arith, cast_type_injective e.type wanted)

checked_lem :
    {A : Type 0} (wanted : WhiteboardElementsType) (what : String) (e : WhiteboardElements) (a : A)
    → (e.type ≡ wanted → checked wanted what e a ≡ value a)
      × (e.type ≢ wanted → Refused e.type what (checked wanted what e a))
unfolding checked
checked_lem wanted what e a =
    (λ h. ground arith, λ h. rw (checked-ne wanted what e a h) (mismatch-Refused what e.type))

-- What the constructors store, the getters return.
abbrev pub Stored :
    WhiteboardElements → List Point → Point → Point → Point → Float → String → String → Type 0
Stored e points p q r x s t =
    (get_path_points (new_path e points) ≡ value points)
    × (get_line_start (new_line e p q) ≡ value p)
    × (get_line_end (new_line e p q) ≡ value q)
    × (get_circle_center (new_circle e p x) ≡ value p)
    × (get_circle_radius (new_circle e p x) ≡ value x)
    × (get_triangle_points (new_triangle e p q r) ≡ value (p ∷ q ∷ r ∷ []))
    × (get_square_topleft (new_square e p x) ≡ value p)
    × (get_square_side_length (new_square e p x) ≡ value x)
    × (get_text_center (new_text e p s) ≡ value p)
    × (get_text_content (new_text e p s) ≡ value s)
    × (get_stickynote_center (new_stickynote e p x s) ≡ value p)
    × (get_stickynote_side_length (new_stickynote e p x s) ≡ value x)
    × (get_stickynote_content (new_stickynote e p x s) ≡ value s)
    × (get_picture_center (new_picture e p s t) ≡ value p)
    × (get_picture_content (new_picture e p s t) ≡ value s)
    × (get_picture_filename (new_picture e p s t) ≡ value t)

stored :
    (e : WhiteboardElements) (points : List Point) (p q r : Point) (x : Float) (s t : String)
    → Stored e points p q r x s t
unfolding get_path_points get_line_start get_line_end get_circle_center get_circle_radius
    get_triangle_points get_square_side_length get_square_topleft get_text_center get_text_content
    get_picture_center get_picture_content get_picture_filename get_stickynote_center
    get_stickynote_side_length get_stickynote_content new_path new_line new_circle new_triangle
    new_square new_text new_stickynote new_picture
stored e points p q r x s t = ground arith

-- What a getter of a kind does on an element of another.
abbrev pub Refuses :
    {A : Type 0} → WhiteboardElements → WhiteboardElementsType → String → Access A → Type 0
Refuses e wanted what r =
    e.type ≢ wanted → Refused e.type (concat (concat "Cannot " what) " from type") r

abbrev pub RefusesOthers : WhiteboardElements → Type 0
RefusesOthers e =
    Refuses e path "[path_points]" (get_path_points e)
    × Refuses e line "[line_start]" (get_line_start e)
    × Refuses e line "[line_end]" (get_line_end e)
    × Refuses e circle "[circle_center]" (get_circle_center e)
    × Refuses e circle "[circle_radius]" (get_circle_radius e)
    × Refuses e triangle "[triangle_points]" (get_triangle_points e)
    × Refuses e square "[topleft]" (get_square_topleft e)
    × Refuses e square "[side_length]" (get_square_side_length e)
    × Refuses e text "[center]" (get_text_center e)
    × Refuses e text "[content]" (get_text_content e)
    × Refuses e sticky_note "[center]" (get_stickynote_center e)
    × Refuses e sticky_note "[side_length]" (get_stickynote_side_length e)
    × Refuses e sticky_note "[content]" (get_stickynote_content e)
    × Refuses e picture "[center]" (get_picture_center e)
    × Refuses e picture "[content]" (get_picture_content e)
    × Refuses e picture "[content]" (get_picture_filename e)

refuses_others : (e : WhiteboardElements) → RefusesOthers e
unfolding get_path_points get_line_start get_line_end get_circle_center get_circle_radius
    get_triangle_points get_square_side_length get_square_topleft get_text_center get_text_content
    get_picture_center get_picture_content get_picture_filename get_stickynote_center
    get_stickynote_side_length get_stickynote_content
refuses_others e = (
  (checked_lem _ _ e _).1,
  (checked_lem _ _ e _).1,
  (checked_lem _ _ e _).1,
  (checked_lem _ _ e _).1,
  (checked_lem _ _ e _).1,
  (checked_lem _ _ e _).1,
  (checked_lem _ _ e _).1,
  (checked_lem _ _ e _).1,
  (checked_lem _ _ e _).1,
  (checked_lem _ _ e _).1,
  (checked_lem _ _ e _).1,
  (checked_lem _ _ e _).1,
  (checked_lem _ _ e _).1,
  (checked_lem _ _ e _).1,
  (checked_lem _ _ e _).1,
  (checked_lem _ _ e _).1,
)

-- Whatever an object was before: what the constructor of a kind stored, each getter of the kind
-- returns. And on an element of any other kind than its own, each of the 16 getters throws its
-- message with the name of the element's kind, or, on the empty element, which has no name in the
-- table, reads past the table's end.
pub getters_lem :
    (e : WhiteboardElements) (points : List Point) (p q r : Point) (x : Float) (s t : String)
    → Stored e points p q r x s t × RefusesOthers e
getters_lem e points p q r x s t = (stored e points p q r x s t, refuses_others e)
