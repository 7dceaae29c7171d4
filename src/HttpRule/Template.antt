-- ===== src/HttpRule/Template.antt =====
-- internal/httprule/template.go: templates and the methods of segments.
use trpc_go.Common.{List, [], ◌∷◌, ◌++◌, Option, none, some}
use trpc_go.Wire.BigEndian.{Bytes}

pub data SegmentKind : Type 0 where
  kind_wildcard kind_deep_wildcard kind_literal kind_variable : SegmentKind

-- A variable holds a list of segments, which is the second type of the block.
mutual
  pub data Segment : Type 0 where
    wildcard : Segment
    deep_wildcard : Segment
    literal : Bytes → Segment
    variable : List Bytes → Segments → Segment

  pub data Segments : Type 0 where
    nil : Segments
    cons : Segment → Segments → Segments

pub record PathTemplate : Type 0 where
  pub segments : Segments
  pub verb : Bytes

unfoldable pub kind : Segment → SegmentKind
kind wildcard = kind_wildcard
kind deep_wildcard = kind_deep_wildcard
kind (literal l) = kind_literal
kind (variable fp segs) = kind_variable

-- fieldPath: nil for all but variables.
unfoldable pub field_path : Segment → Option (List Bytes)
field_path (variable fp segs) = some fp
field_path s = none

unfoldable pub nested_segments : Segment → Segments
nested_segments (variable fp segs) = segs
nested_segments s = nil

-- strings.Join
unfoldable pub join : Bytes → List Bytes → Bytes
join sep [] = []
join sep (x ∷ []) = x
join sep (x ∷ y ∷ xs) = x ++ (sep ++ join sep (y ∷ xs))

unfoldable mutual
  -- String of a segment
  pub seg_string : Segment → Bytes
  seg_string wildcard = b'*' ∷ []
  seg_string deep_wildcard = b'*' ∷ b'*' ∷ []
  seg_string (literal l) = l
  seg_string (variable fp segs) =
      b'{' ∷ (join (b'.' ∷ []) fp ++ (b'=' ∷ (join (b'/' ∷ []) (seg_strings segs) ++ (b'}' ∷ []))))

  pub seg_strings : Segments → List Bytes
  seg_strings nil = []
  seg_strings (cons s ss) = seg_string s ∷ seg_strings ss

-- FieldPaths
unfoldable pub field_paths : Segments → List (List Bytes)
field_paths nil = []
field_paths (cons (variable fp segs) ss) = fp ∷ field_paths ss
field_paths (cons s ss) = field_paths ss
