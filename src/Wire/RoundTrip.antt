-- ===== src/Wire/RoundTrip.antt =====
-- A packet that was written reads back, if the buffer holds all of it.
use mathlib.Core.List.{append_assoc}
use xyzwhiteboard.Base.{
  ℕ, ◌%◌, ◌^◌, ◌<◌, ◌≤◌, true, false, List, [], ◌∷◌, ◌++◌, ◌≡◌, refl, arith, ap, ◌∙◌, leb, length,
  length-append, take,
}
use xyzwhiteboard.Packet.{WhiteboardPacket}
use xyzwhiteboard.Wire.{
  Protobuf, DocumentedWire, newline, byte_size, serialize, read_raw, parse_packet,
}

take-append : {A : Type 0} (xs ys : List A) → take (length xs) (xs ++ ys) ≡ xs
take-append [] ys = refl
take-append (x ∷ xs) ys = ap (λ zs. x ∷ zs) (take-append xs ys)

leb_of_le : (m n : ℕ) → m ≤ n → leb m n ≡ true
leb_of_le m n h = ground arith

leb_of_lt : (m n : ℕ) → n < m → leb m n ≡ false
leb_of_lt m n h = ground arith

module _ (P : Protobuf) where
  parse_after_header :
      (buffer bytes : List ℕ) (message_size : ℕ)
      → P.read_varint32 buffer ≡ (message_size, bytes)
      → parse_packet P buffer ≡ P.parse_message (read_raw P message_size bytes)
  unfolding parse_packet
  parse_after_header buffer bytes message_size h =
      ap (λ (r : ℕ × List ℕ). P.parse_message (read_raw P r.0 r.1)) h

  read_raw-whole : (xs ys : List ℕ) → read_raw P (length xs) (xs ++ ys) ≡ xs
  unfolding read_raw
  read_raw-whole xs ys =
      rw (leb_of_le (length xs) (length (xs ++ ys)) (omega (arith, length-append {0} xs ys)))
        (take-append xs ys)

  read_raw-short : (n : ℕ) (xs : List ℕ) → length xs < n → read_raw P n xs ≡ P.short_read n xs
  unfolding read_raw
  read_raw-short n xs short = rw (leb_of_lt n (length xs) short) refl

module _ (P : Protobuf) (D : DocumentedWire P) (p : WhiteboardPacket)
    (carried : D.Carried p.packet) where
  read_header :
      (bytes : List ℕ)
      → P.read_varint32 (P.write_varint32 (byte_size P p % 2 ^ 32) ++ bytes)
        ≡ (byte_size P p, bytes)
  read_header bytes =
      let small = D.size p.packet carried in
      let whole : byte_size P p % 2 ^ 32 ≡ byte_size P p = omega arith in
      rw whole (D.read-write_varint32 (byte_size P p) bytes (omega arith))

  -- A buffer that starts with a written packet parses to the packet's message, whatever bytes the
  -- message is made of, newlines among them, and whatever else has arrived behind it.
  pub parse_packet-serialize : (rest : List ℕ) → parse_packet P (serialize P p ++ rest) ≡ p.packet
  unfolding serialize
  parse_packet-serialize rest =
      let bytes = P.serialize_message p.packet in
      parse_after_header P (serialize P p ++ rest) (bytes ++ (newline ∷ rest)) (byte_size P p) (
        ap (λ (b : List ℕ). P.read_varint32 b)
          (append_assoc (P.write_varint32 (byte_size P p % 2 ^ 32)) (bytes ++ newline ∷ []) rest
            ∙ ap (λ (b : List ℕ). P.write_varint32 (byte_size P p % 2 ^ 32) ++ b)
                (append_assoc bytes (newline ∷ []) rest))
        ∙ read_header (bytes ++ (newline ∷ rest)))
      ∙ ap P.parse_message (read_raw-whole P bytes (newline ∷ rest))
      ∙ D.parse-serialize_message p.packet carried

  -- A buffer that ends inside the bytes of the message, as it may where one of them is a newline, is
  -- parsed all the same, from what the short read leaves.
  parse_packet-short :
      (bytes : List ℕ)
      → length bytes < byte_size P p
      → parse_packet P (P.write_varint32 (byte_size P p % 2 ^ 32) ++ bytes)
        ≡ P.parse_message (P.short_read (byte_size P p) bytes)
  parse_packet-short bytes short =
      parse_after_header P _ bytes (byte_size P p) (read_header bytes)
      ∙ ap P.parse_message (read_raw-short P (byte_size P p) bytes short)
