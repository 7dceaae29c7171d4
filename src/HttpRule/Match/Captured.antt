-- ===== src/HttpRule/Match/Captured.antt =====
-- internal/httprule/match.go: which variables a successful Match has captured.
use trpc_go.Common.{
  ◌≡◌, ◌≢◌, sym, ◌∙◌, List, [], ◌∷◌, Option, none, some, All, Bool-cases, inl, inr, str_eq,
  str_eq_refl,
}
use trpc_go.Common.Dict.{Dict, insert, lookup, lookup-insert}
use trpc_go.Wire.BigEndian.{Bytes}
use trpc_go.HttpRule.Template.{
  wildcard, deep_wildcard, literal, variable, Segments, nil, cons, PathTemplate, join, field_paths,
}
use trpc_go.HttpRule.Parse.{parse, ok}
use trpc_go.HttpRule.Parse.Valid.{names}
use trpc_go.HttpRule.Match.{Outcome, matched, failed, ◌>>=◌, match_path, match_verb, split}
use trpc_go.HttpRule.Match.Reference.{piece, pieces, assign, to_outcome}
use trpc_go.HttpRule.Match.Follows.{match_path_follows}

abbrev pub IsCaptured : Dict Bytes → Bytes → Type 0
IsCaptured d name = lookup name d ≢ none

insert_here : (name value : Bytes) (d : Dict Bytes) → IsCaptured (insert name value d) name
insert_here name value d e =
    let found : lookup name (insert name value d) ≡ some value =
      rw (lookup-insert name name value d, str_eq_refl name) in
    cc

insert_keeps :
    (key value name : Bytes) (d : Dict Bytes)
    → IsCaptured d name
    → IsCaptured (insert key value d) name
insert_keeps key value name d h e = elim (Bool-cases (str_eq key name)) [
  | inl same ↦
      let found : lookup name (insert key value d) ≡ some value =
        rw (lookup-insert key name value d, same) in
      cc
  | inr other ↦ h (rw (lookup-insert key name value d, other) at e)
]

abbrev Continues : Segments → Type 0
Continues ss =
    (cs : List Bytes) (d d' : Dict Bytes)
    → assign ss cs d ≡ some d'
    → (((name : Bytes) → IsCaptured d name → IsCaptured d' name) × All (IsCaptured d') (names ss))

simple-Continues :
    (o : Option (Bytes × List Bytes)) (ss : Segments) (d d' : Dict Bytes)
    → Continues ss
    → elim o [ none ↦ none | some (text, rest) ↦ assign ss rest d ] ≡ some d'
    → (((name : Bytes) → IsCaptured d name → IsCaptured d' name) × All (IsCaptured d') (names ss))
simple-Continues none ss d d' h e = cc
simple-Continues (some (text, rest)) ss d d' h e = h rest d d' e

variable-Continues :
    (o : Option (List Bytes × List Bytes)) (name : Bytes) (ss : Segments) (d d' : Dict Bytes)
    → Continues ss
    → elim o [
      | none ↦ none
      | some (texts, rest) ↦ assign ss rest (insert name (join (b'/' ∷ []) texts) d)
    ]
      ≡ some d'
    → (((n : Bytes) → IsCaptured d n → IsCaptured d' n)
        × (IsCaptured d' name)
        × All (IsCaptured d') (names ss))
variable-Continues none name ss d d' h e = cc
variable-Continues (some (texts, rest)) name ss d d' h e =
    let value = join (b'/' ∷ []) texts in
    let (keeps, others) = h rest (insert name value d) d' e in
    (λ n k. keeps n (insert_keeps name value n d k), keeps name (insert_here name value d), others)

assign-Continues : (ss : Segments) → Continues ss
unfolding assign field_paths
assign-Continues nil [] d d' e = let same : d ≡ d' = cc in (λ n h. rw (sym same) h, tt)
assign-Continues nil (c ∷ cs) d d' e = cc
assign-Continues (cons wildcard ss) cs d d' e =
    simple-Continues (piece wildcard cs) ss d d' (assign-Continues ss) e
assign-Continues (cons deep_wildcard ss) cs d d' e =
    simple-Continues (piece deep_wildcard cs) ss d d' (assign-Continues ss) e
assign-Continues (cons (literal l) ss) cs d d' e =
    simple-Continues (piece (literal l) cs) ss d d' (assign-Continues ss) e
assign-Continues (cons (variable fp inner) ss) cs d d' e =
    let (keeps, here, others) =
      variable-Continues (pieces inner cs) (join (b'.' ∷ []) fp) ss d d' (assign-Continues ss) e in
    (keeps, (here, others))

to_outcome-matched :
    (o : Option (Dict Bytes)) (d : Dict Bytes) → to_outcome o ≡ matched d → o ≡ some d
unfolding to_outcome
to_outcome-matched none d e = cc
to_outcome-matched (some d') d e = cc

verb_captures :
    (segs : Segments) (d : Dict Bytes) (r : Outcome (List Bytes))
    → (r >>= λ cs. to_outcome (assign segs cs [])) ≡ matched d
    → All (IsCaptured d) (names segs)
verb_captures segs d (failed x) e = cc
verb_captures segs d (matched cs) e =
    (assign-Continues segs cs [] d (to_outcome-matched (assign segs cs []) d e)).1

-- When Match succeeds with a template that Parse returned, every variable of the template has a
-- captured value.
pub match_path_captures :
    (template path : Bytes) (tpl : PathTemplate) (d : Dict Bytes)
    → parse template ≡ ok tpl
    → match_path tpl (b'/' ∷ path) ≡ matched d
    → All (IsCaptured d) (names (tpl.segments))
match_path_captures template path tpl d parsed e =
    verb_captures (tpl.segments) d (match_verb (tpl.verb) (split path))
      (sym (match_path_follows template path tpl parsed) ∙ e)
