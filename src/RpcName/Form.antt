-- ===== src/RpcName/Form.antt =====
-- codec/message_impl.go: rpcNameIsTRPCForm against the pattern in its comment.
use trpc_go.Common.{
  ℕ, suc, ◌+◌, ◌≡◌, ◌≢◌, ◌↔◌, refl, sym, ap, ◌∙◌, Bool, true, false, ◌||◌, [], ◌∷◌, ◌++◌, none,
  some, length, drop, ◌==◌, if◌then◌else◌, ◌⊎◌, inl, inr, Bool-cases, arith, length-append,
  take-length, drop-length, ==_iff,
}
use mathlib.Core.List.{append_assoc}
use trpc_go.Wire.BigEndian.{Bytes}
use trpc_go.RpcName.{
  index, contains, second_part, first_part, rpc_name_is_trpc_form, method_from_rpc_name,
}

true≢false : true ≢ false
true≢false e = cc

abbrev pub Lacks : ℕ → Bytes → Type 0
Lacks c s = contains c s ≡ false

pub index-append :
    (c : ℕ) (pre post : Bytes) → Lacks c pre → index c (pre ++ (c ∷ post)) ≡ some (length pre)
unfolding index contains
index-append c [] post h = ground arith
index-append c (d ∷ pre) post h = ground (arith, index-append c pre post)

index-cases :
    (c : ℕ) (s : Bytes)
    → (index c s ≡ none) ⊎ ((pre : Bytes) × (post : Bytes) × (s ≡ pre ++ (c ∷ post)) × Lacks c pre)
unfolding index contains
index-cases c [] = inl refl
index-cases c (d ∷ s) = elim (Bool-cases (d == c)) [
  | inl here ↦ inr ([], s, ap (λ x. x ∷ s) ((==_iff d c).0 here), refl)
  | inr other ↦ elim (index-cases c s) [
    | inl a ↦ inl (rw (index, other, a))
    | inr (pre, post, a, b) ↦ inr (d ∷ pre, post, ap (λ t. d ∷ t) a, rw (contains, other, b))
  ]
]

-- The pattern ^/[^/.]+\.[^/]+/[^/.]+$, part by part.
pub record IsTrpcForm (s : Bytes) : Type 0 where
  pub prefix : Bytes
  pub service : Bytes
  pub method : Bytes
  pub parts : s ≡ b'/' ∷ (prefix ++ (b'.' ∷ (service ++ (b'/' ∷ method))))
  pub nonempty : (prefix ≢ []) × (service ≢ []) × (method ≢ [])
  pub prefix_plain : Lacks b'/' prefix × Lacks b'.' prefix
  pub service_plain : Lacks b'/' service
  pub method_plain : Lacks b'/' method × Lacks b'.' method

-- What the code computes of a name in parts.
abbrev accepts : Bytes → Bytes → Bytes → Bool
accepts prefix service method =
    if length prefix == 0
    then false
    else if contains b'/' prefix
    then false
    else if suc (length service) == 1
    then false
    else if length method == 0
    then false
    else if contains b'/' method || contains b'.' method
    then false
    else true

drop-past : (xs ys : Bytes) (n : ℕ) → drop (length xs + n) (xs ++ ys) ≡ drop n ys
drop-past [] ys n = let e : 0 + n ≡ n = omega arith in rw e
drop-past (x ∷ xs) ys n =
    let e : suc (length xs) + n ≡ suc (length xs + n) = omega arith in rw e (drop-past xs ys n)

drop-past' : (xs ys : Bytes) → drop (suc (length xs)) (xs ++ (b'/' ∷ ys)) ≡ ys
drop-past' [] ys = refl
drop-past' (x ∷ xs) ys = drop-past' xs ys

abbrev tail_of : Bytes → Bytes → Bytes → Bytes
tail_of prefix service method = prefix ++ (b'.' ∷ (service ++ (b'/' ∷ method)))

drop-method :
    (prefix service method : Bytes)
    → drop (length prefix + suc (length service) + 1) (tail_of prefix service method) ≡ method
drop-method prefix service method =
    let e : length prefix + suc (length service) + 1 ≡ length prefix + suc (suc (length service)) =
      omega arith in
    rw (e, drop-past prefix (b'.' ∷ (service ++ (b'/' ∷ method))) (suc (suc (length service))))
      (drop-past' service method)

length-tail :
    (prefix service method : Bytes)
    → (1 + length prefix + suc (length service) == length (tail_of prefix service method))
      ≡ (length method == 0)
length-tail prefix service method = ground (
  arith,
  length-append prefix (b'.' ∷ (service ++ (b'/' ∷ method))),
  length-append service (b'/' ∷ method),
)

form-parts :
    (prefix service method : Bytes)
    → Lacks b'.' prefix
    → Lacks b'/' service
    → rpc_name_is_trpc_form (b'/' ∷ tail_of prefix service method) ≡ accepts prefix service method
unfolding rpc_name_is_trpc_form first_part second_part index
form-parts prefix service method h k = rw (
  index-append b'.' prefix (service ++ (b'/' ∷ method)) h,
  take-length prefix (b'.' ∷ (service ++ (b'/' ∷ method))),
  drop-length prefix (b'.' ∷ (service ++ (b'/' ∷ method))),
  index-append b'/' service method k,
  drop-method prefix service method,
  length-tail prefix service method,
)

accepts-true :
    (prefix service method : Bytes)
    → accepts prefix service method ≡ true
    → ((prefix ≢ []) × (service ≢ []) × (method ≢ []))
      × (Lacks b'/' prefix × (Lacks b'/' method × Lacks b'.' method))
accepts-true [] service method e = cc
accepts-true (a ∷ prefix) [] method e = absurd (ground arith)
accepts-true (a ∷ prefix) (b ∷ service) [] e = absurd (ground arith)
accepts-true (a ∷ prefix) (b ∷ service) (c ∷ method) e =
    ((λ h. cc, λ h. cc, λ h. cc), (ground arith, (ground arith, ground arith)))

true-accepts :
    (prefix service method : Bytes)
    → (prefix ≢ []) × (service ≢ []) × (method ≢ [])
    → Lacks b'/' prefix
    → Lacks b'/' method × Lacks b'.' method
    → accepts prefix service method ≡ true
true-accepts [] service method h k l = absurd (h.0 refl)
true-accepts (a ∷ prefix) [] method h k l = absurd (h.1 refl)
true-accepts (a ∷ prefix) (b ∷ service) [] h k l = absurd (h.2 refl)
true-accepts (a ∷ prefix) (b ∷ service) (c ∷ method) h k l = ground arith

if_false : (b : Bool) → (if b then false else false) ≡ false
if_false true = refl
if_false false = refl

no-slash :
    (prefix post : Bytes)
    → Lacks b'.' prefix
    → index b'/' post ≡ none
    → rpc_name_is_trpc_form (b'/' ∷ (prefix ++ (b'.' ∷ post))) ≡ false
unfolding rpc_name_is_trpc_form first_part index
no-slash prefix post h k =
    rw (index-append b'.' prefix post h, drop-length prefix (b'.' ∷ post), k, if_false)
      (if_false (length prefix == 0))

no-dot : (s : Bytes) → index b'.' s ≡ none → rpc_name_is_trpc_form (b'/' ∷ s) ≡ false
unfolding rpc_name_is_trpc_form
no-dot s h = rw h

other_start : (c : ℕ) (s : Bytes) → (c == b'/') ≡ false → rpc_name_is_trpc_form (c ∷ s) ≡ false
unfolding rpc_name_is_trpc_form
other_start c s h = rw h

tail-IsTrpcForm : (s : Bytes) → rpc_name_is_trpc_form (b'/' ∷ s) ≡ true → IsTrpcForm (b'/' ∷ s)
tail-IsTrpcForm s e = elim (index-cases b'.' s) [
  | inl a ↦ absurd (true≢false (sym e ∙ no-dot s a))
  | inr (prefix, post, a, b) ↦ elim (index-cases b'/' post) [
    | inl c ↦ absurd (true≢false (sym (rw a at e) ∙ no-slash prefix post b c))
    | inr (service, method, c, d) ↦
        let same : s ≡ tail_of prefix service method = rw (a, c) in
        let (full, (k, l)) =
          accepts-true prefix service method
            (sym (form-parts prefix service method b d) ∙ (rw same at e)) in
        record {
          prefix = prefix;
          service = service;
          method = method;
          parts = ap (λ t. b'/' ∷ t) same;
          nonempty = full;
          prefix_plain = (k, b);
          service_plain = d;
          method_plain = l;
        }
  ]
]

empty_name : rpc_name_is_trpc_form [] ≡ false
unfolding rpc_name_is_trpc_form
empty_name = refl

accepted : (s : Bytes) → rpc_name_is_trpc_form s ≡ true → IsTrpcForm s
accepted [] e = absurd (true≢false (sym e ∙ empty_name))
accepted (c ∷ s) e = elim (Bool-cases (c == b'/')) [
  | inl slash ↦
      let same : c ≡ b'/' = (==_iff c b'/').0 slash in rw same (tail-IsTrpcForm s (rw same at e))
  | inr other ↦ absurd (true≢false (sym e ∙ other_start c s other))
]

-- rpcNameIsTRPCForm accepts exactly the names of the pattern ^/[^/.]+\.[^/]+/[^/.]+$ that its
-- comment gives.
pub rpc_name_is_trpc_form_iff : (s : Bytes) → (rpc_name_is_trpc_form s ≡ true) ↔ IsTrpcForm s
rpc_name_is_trpc_form_iff s = (
  accepted s,
  λ h. rw (h.parts) (
      form-parts (h.prefix) (h.service) (h.method) (h.prefix_plain.1) (h.service_plain)
      ∙ true-accepts (h.prefix) (h.service) (h.method) (h.nonempty) (h.prefix_plain.0)
          (h.method_plain)),
)

contains-append : (c : ℕ) (pre post : Bytes) → contains c (pre ++ (c ∷ post)) ≡ true
unfolding contains
contains-append c [] post = ground arith
contains-append c (d ∷ pre) post = ground (arith, contains-append c pre post)

method-append :
    (pre method : Bytes)
    → Lacks b'/' method
    → method_from_rpc_name (pre ++ (b'/' ∷ method)) ≡ method
unfolding method_from_rpc_name
method-append [] method h = rw h
method-append (c ∷ pre) method h = rw (contains-append b'/' pre method) (method-append pre method h)

-- Of a name in the form of the pattern, methodFromRPCName returns the part behind the second slash.
pub method_of_form : (s : Bytes) (form : IsTrpcForm s) → method_from_rpc_name s ≡ form.method
method_of_form s form =
    let regroup : s ≡ (b'/' ∷ (form.prefix ++ (b'.' ∷ form.service))) ++ (b'/' ∷ form.method) =
      form.parts
      ∙ ap (λ t. b'/' ∷ t)
          (sym (append_assoc (form.prefix) (b'.' ∷ form.service) (b'/' ∷ form.method))) in
    ap method_from_rpc_name regroup
    ∙ method-append (b'/' ∷ (form.prefix ++ (b'.' ∷ form.service))) (form.method)
        (form.method_plain.0)
