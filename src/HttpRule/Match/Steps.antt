-- ===== src/HttpRule/Match/Steps.antt =====
-- The handlers of internal/httprule/match.go, one segment and one list of segments at a time.
use trpc_go.Common.{
  ℕ, zero, suc, ◌<◌, ◌≤◌, ◌≡◌, lt→neq, le→ltb, refl, ap, List, [], ◌∷◌, ◌++◌, none, some, length,
  drop, get_elem?, str_eq, arith, Bool-cases, ◌⊎◌, inl, inr, All,
}
use mathlib.Core.List.{append-nil}
use trpc_go.Wire.BigEndian.{Bytes}
use trpc_go.HttpRule.Template.{
  Segment, wildcard, deep_wildcard, literal, variable, Segments, nil, cons, join,
}
use trpc_go.HttpRule.Stack.{Stack, push}
use trpc_go.HttpRule.Parse.Valid.{IsSimple, to_list}
use trpc_go.HttpRule.Match.{
  Outcome, matched, failed, not_match, Matcher, push_at, handle_wildcard, slashed,
  handle_deep_wildcard, handle_literal, segments_len, handle, handle_all,
}
use trpc_go.HttpRule.Match.Reference.{piece, pieces}

abbrev pub at : ℕ → Stack Bytes → Matcher → Matcher
at pos st m = record { components = m.components; pos = pos; captured = m.captured; st = st }

abbrev pub pushes : List Bytes → Stack Bytes → Stack Bytes
pushes [] st = st
pushes (t ∷ ts) st = pushes ts (push t st)

abbrev pub remaining : Matcher → List Bytes
remaining m = drop (m.pos) (m.components)

abbrev pub IsInside : Matcher → Type 0
IsInside m = m.pos ≤ length (m.components)

get_elem-drop :
    (pos : ℕ) (cs : List Bytes)
    → pos ≤ length cs
    → ((get_elem? cs pos ≡ none) × (drop pos cs ≡ []))
      ⊎ ((c : Bytes) × (get_elem? cs pos ≡ some c)
          × (drop pos cs ≡ c ∷ drop (suc pos) cs)
          × (suc pos ≤ length cs))
get_elem-drop zero [] h = inl (refl, refl)
get_elem-drop (suc pos) [] h = inl (refl, refl)
get_elem-drop zero (c ∷ cs) h = inr (c, refl, refl, omega arith)
get_elem-drop (suc pos) (c ∷ cs) h = elim (get_elem-drop pos cs (omega arith)) [
  | inl (a, b) ↦ inl (a, b)
  | inr (c, a, b, k) ↦ inr (c, a, b, omega arith)
]

slashed-join : (c : Bytes) (cs : List Bytes) → c ++ slashed cs ≡ join (b'/' ∷ []) (c ∷ cs)
unfolding slashed join
slashed-join c [] = append-nil c
slashed-join c (d ∷ cs) = ap (λ s. c ++ (b'/' ∷ s)) (slashed-join d cs)

pub drop-all : (cs : List Bytes) → drop (length cs) cs ≡ []
drop-all [] = refl
drop-all (c ∷ cs) = drop-all cs

drop-nil : (pos : ℕ) (cs : List Bytes) → pos ≤ length cs → drop pos cs ≡ [] → pos ≡ length cs
drop-nil zero [] h e = refl
drop-nil (suc pos) [] h e = absurd (omega arith)
drop-nil zero (c ∷ cs) h e = cc
drop-nil (suc pos) (c ∷ cs) h e = ap suc (drop-nil pos cs (omega arith) e)

pub remaining-cases :
    (m : Matcher)
    → IsInside m
    → ((remaining m ≡ []) × (m.pos ≡ length (m.components)))
      ⊎ ((c : Bytes) × (cs : List Bytes) × (remaining m ≡ c ∷ cs) × (m.pos < length (m.components)))
remaining-cases m h = elim (get_elem-drop (m.pos) (m.components) h) [
  | inl (a, b) ↦ inl (b, drop-nil (m.pos) (m.components) h b)
  | inr (c, a, b, k) ↦ inr (c, drop (suc (m.pos)) (m.components), b, omega arith)
]

-- A segment other than a variable fails with the reference, or pushes the text the reference takes.
abbrev pub StepsTo : Segment → Outcome Matcher → Matcher → Type 0
StepsTo s result m =
    ((piece s (remaining m) ≡ none) × (result ≡ failed not_match))
    ⊎ ((text : Bytes) × (pos : ℕ) × (piece s (remaining m) ≡ some (text, drop pos (m.components)))
        × (result ≡ matched (at pos (push text (m.st)) m))
        × (pos ≤ length (m.components)))

pub wildcard_steps : (m : Matcher) → IsInside m → StepsTo wildcard (handle_wildcard m) m
unfolding piece handle_wildcard push_at
wildcard_steps m h = elim (get_elem-drop (m.pos) (m.components) h) [
  | inl (a, b) ↦ inl (rw b, rw (handle_wildcard, a))
  | inr (c, a, b, k) ↦ inr (c, suc (m.pos), rw b, rw (handle_wildcard, a), k)
]

pub literal_steps :
    (l : Bytes) (m : Matcher) → IsInside m → StepsTo (literal l) (handle_literal l m) m
unfolding piece handle_literal push_at
literal_steps l m h = elim (get_elem-drop (m.pos) (m.components) h) [
  | inl (a, b) ↦ inl (rw b, rw (handle_literal, a))
  | inr (c, a, b, k) ↦ elim (Bool-cases (str_eq c l)) [
    | inl same ↦ inr (c, suc (m.pos), rw (b, same), rw (handle_literal, a, same), k)
    | inr other ↦ inl (rw (b, other), rw (handle_literal, a, other))
  ]
]

pub deep_wildcard_steps :
    (m : Matcher) → IsInside m → StepsTo deep_wildcard (handle_deep_wildcard m) m
unfolding piece handle_deep_wildcard push_at join slashed
deep_wildcard_steps m h = elim (remaining-cases m h) [
  | inl (a, b) ↦ inr ([], m.pos, rw a, ground arith, h)
  | inr (c, cs, a, b) ↦ inr (
    c ++ slashed cs,
    length (m.components),
    rw (a, slashed-join, drop-all),
    rw (le→ltb (length (m.components)) (m.pos) h, lt→neq b, a),
    omega arith,
  )
]

handle_steps : (s : Segment) (m : Matcher) → IsSimple s → IsInside m → StepsTo s (handle s m) m
unfolding handle
handle_steps wildcard m simple h = wildcard_steps m h
handle_steps deep_wildcard m simple h = deep_wildcard_steps m h
handle_steps (literal l) m simple h = literal_steps l m h
handle_steps (variable fp segs) m simple h = absurd simple

-- A list of simple segments fails with the reference, or pushes the texts the reference takes.
abbrev pub AllSteps : Segments → Matcher → Type 0
AllSteps segs m =
    ((pieces segs (remaining m) ≡ none) × (handle_all segs m ≡ failed not_match))
    ⊎ ((texts : List Bytes) × (pos : ℕ) × (pieces segs (remaining m)
          ≡ some (texts, drop pos (m.components)))
        × (handle_all segs m ≡ matched (at pos (pushes texts (m.st)) m))
        × (pos ≤ length (m.components))
        × (length texts ≡ segments_len segs))

pub segments-AllSteps :
    (segs : Segments) (m : Matcher) → All IsSimple (to_list segs) → IsInside m → AllSteps segs m
unfolding handle_all pieces segments_len
segments-AllSteps nil m simple h = inr ([], m.pos, refl, refl, h, refl)
segments-AllSteps (cons s ss) m simple h = elim (handle_steps s m (simple.0) h) [
  | inl (a, b) ↦ inl (rw (pieces, a), rw (handle_all, b))
  | inr (text, pos, a, b, k) ↦
      elim (segments-AllSteps ss (at pos (push text (m.st)) m) (simple.1) k) [
        | inl (a', b') ↦ inl (rw (pieces, a, a'), rw (handle_all, b, b'))
        | inr (texts, pos', a', b', k', len) ↦
            inr (text ∷ texts, pos', rw (pieces, a, a'), rw (handle_all, b, b'), k', ap suc len)
      ]
]
