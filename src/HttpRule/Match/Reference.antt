-- ===== src/HttpRule/Match/Reference.antt =====
-- A reference for internal/httprule/match.go that knows no stack and no position: it consumes
-- the components from the left.
use trpc_go.Common.{List, [], ◌∷◌, Option, none, some, if◌then◌else◌, str_eq}
use trpc_go.Common.Dict.{Dict, insert}
use trpc_go.Wire.BigEndian.{Bytes}
use trpc_go.HttpRule.Template.{
  Segment, wildcard, deep_wildcard, literal, variable, Segments, nil, cons, join,
}
use trpc_go.HttpRule.Match.{Outcome, matched, failed, not_match}

-- The text that one segment takes from the components, and what it leaves.
unfoldable pub piece : Segment → List Bytes → Option (Bytes × List Bytes)
piece wildcard [] = none
piece wildcard (c ∷ cs) = some (c, cs)
piece deep_wildcard cs = some (join (b'/' ∷ []) cs, [])
piece (literal l) [] = none
piece (literal l) (c ∷ cs) = if str_eq c l then some (c, cs) else none
piece (variable fp segs) cs = none

unfoldable pub pieces : Segments → List Bytes → Option (List Bytes × List Bytes)
pieces nil cs = some ([], cs)
pieces (cons s ss) cs = elim (piece s cs) [
  | none ↦ none
  | some (text, rest) ↦ elim (pieces ss rest) [
    | none ↦ none
    | some (texts, left) ↦ some (text ∷ texts, left)
  ]
]

-- The values of the variables, if the whole list of components fits the template.
unfoldable pub assign : Segments → List Bytes → Dict Bytes → Option (Dict Bytes)
assign nil [] d = some d
assign nil (c ∷ cs) d = none
assign (cons (variable fp inner) ss) cs d = elim (pieces inner cs) [
  | none ↦ none
  | some (texts, rest) ↦ assign ss rest (insert (join (b'.' ∷ []) fp) (join (b'/' ∷ []) texts) d)
]
assign (cons s ss) cs d = elim (piece s cs) [ none ↦ none | some (text, rest) ↦ assign ss rest d ]

unfoldable pub to_outcome : Option (Dict Bytes) → Outcome (Dict Bytes)
to_outcome none = failed not_match
to_outcome (some d) = matched d
