-- ===== src/Element/Print.antt =====
-- src/base/element.cpp: WhiteboardElements::print, as the texts written to std::cout.
use xyzwhiteboard.Base.{ℕ, ◌≡◌, ◌≢◌, arith, String, List, [], ◌∷◌, ◌++◌, map, length, concat}
use xyzwhiteboard.Proto.{Float}
use xyzwhiteboard.Element.{
  WhiteboardElements, WhiteboardElementsType, Point, Access, value, unmatch, out_of_bounds, ◌>>=◌,
  get_path_points, get_line_start, get_line_end, get_circle_center, get_circle_radius,
  get_triangle_points, get_square_side_length, get_square_topleft, get_text_center,
  get_text_content, get_stickynote_center, get_stickynote_side_length, get_stickynote_content,
}

-- How the standard library writes numbers.
pub record Format : Type 0 where
  pub to_string : Float → String
  pub put_float : Float → String
  pub put_size : ℕ → String

-- Point::str
abbrev str : Format → Point → String
str fmt p = concat "(" (concat (fmt.to_string p.x) (concat "," (concat (fmt.to_string p.y) ")")))

abbrev entry : String → String → String
entry label shown = concat label (concat shown "\n")

print_triangle : Format → List Point → Access (List String)
print_triangle fmt (p0 ∷ p1 ∷ p2 ∷ ps) = value (
    "    TYPE: Triangle\n"
    ∷ entry "      point1: " (str fmt p0)
    ∷ entry "      point2: " (str fmt p1)
    ∷ entry "      point3: " (str fmt p2)
    ∷ [])
print_triangle fmt _ = out_of_bounds

print_stickynote : Format → WhiteboardElements → Access (List String)
print_stickynote fmt e = do
  center ← get_stickynote_center e
  side_length ← get_stickynote_side_length e
  content ← get_stickynote_content e
  value (
      "    TYPE: StickyNote\n"
      ∷ entry "      center     : " (str fmt center)
      ∷ entry "      side_length: " (fmt.put_float side_length)
      ∷ entry "      content    : " content
      ∷ [])

-- The cases of the `switch`; that of a picture falls through to the sticky note's.
print_case : Format → WhiteboardElementsType → WhiteboardElements → Access (List String)
unfolding print_triangle print_stickynote
print_case fmt WhiteboardElementsType.path e = do
  vec ← get_path_points e
  value (
      "    TYPE: Path\n"
      ∷ concat "    Path_points(" (concat (fmt.put_size (length vec)) "):\n")
      ∷ map (λ v. entry "      " (str fmt v)) vec)
print_case fmt WhiteboardElementsType.line e = do
  start ← get_line_start e
  end ← get_line_end e
  value (
      "    TYPE: Line\n"
      ∷ entry "      start: " (str fmt start)
      ∷ entry "      end  : " (str fmt end)
      ∷ [])
print_case fmt WhiteboardElementsType.circle e = do
  center ← get_circle_center e
  radius ← get_circle_radius e
  value (
      "    TYPE: Circle\n"
      ∷ entry "      center: " (str fmt center)
      ∷ entry "      radius  : " (fmt.put_float radius)
      ∷ [])
print_case fmt WhiteboardElementsType.triangle e = do
  points ← get_triangle_points e
  print_triangle fmt points
print_case fmt WhiteboardElementsType.square e = do
  side_length ← get_square_side_length e
  topleft ← get_square_topleft e
  value (
      "    TYPE: Square\n"
      ∷ entry "      side_length: " (fmt.put_float side_length)
      ∷ entry "      topleft: " (str fmt topleft)
      ∷ [])
print_case fmt WhiteboardElementsType.text e = do
  center ← get_text_center e
  content ← get_text_content e
  value (
      "    TYPE: Text\n"
      ∷ entry "      center : " (str fmt center)
      ∷ entry "      content: " content
      ∷ [])
print_case fmt WhiteboardElementsType.picture e = print_stickynote fmt e
print_case fmt WhiteboardElementsType.sticky_note e = print_stickynote fmt e
print_case fmt WhiteboardElementsType.null e = value ("    Empty element\n" ∷ [])

abbrev pub rule : String
rule = " ---------------------------\n"

-- What was written, and how the call ended.
abbrev finish : Access (List String) → List String × Access (Unit {0})
finish (value lines) = (rule ∷ lines ++ rule ∷ [], value tt)
finish (unmatch what) = (rule ∷ [], unmatch what)
finish out_of_bounds = (rule ∷ [], out_of_bounds)

pub print : Format → WhiteboardElements → List String × Access (Unit {0})
unfolding print_case get_path_points get_line_start get_line_end get_circle_center get_circle_radius
    get_triangle_points get_square_side_length get_square_topleft get_text_center get_text_content
    get_stickynote_center get_stickynote_side_length get_stickynote_content
print fmt e = finish (print_case fmt e.type e)

-- Printing returns exactly when the element is no picture, and a picture makes it throw
-- ElementsTypeUnmatch after the first rule.
pub print-eq-value_iff :
    (fmt : Format) (e : WhiteboardElements)
    → ((print fmt e).1 ≡ value tt → e.type ≢ WhiteboardElementsType.picture)
      × (e.type ≢ WhiteboardElementsType.picture → (print fmt e).1 ≡ value tt)
      × (e.type ≡ WhiteboardElementsType.picture
          → print fmt e ≡ (rule ∷ [], unmatch "Cannot [center] from typePicture"))
unfolding print
print-eq-value_iff fmt e = (ground arith, ground arith, ground arith)
