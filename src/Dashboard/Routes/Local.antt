-- ===== src/Dashboard/Routes/Local.antt =====
-- Which hosts a request may name.
use otherhost.Dashboard.Routes.{
  Route, allowed_request_host, bracketed, host_of, is_local_name, or_whole, route, split_host_port,
  split_last,
}
use otherhost.Base.{
  ℕ, ◌≡◌, ◌⊎◌, inl, inr, refl, subst, ap, ◌∙◌, true, false, [], ◌∷◌, ◌++◌, Option, none, some,
  arith, ◌==◌, ==_iff, Bytes, codes, bytes_eq, bytes_eq_iff, ok, Option-cases, Bool-cases,
}
use otherhost.Dashboard.Server.{Method}
use otherhost.Text.Parts.{split_first}

split_first-joined :
    (b : ℕ) (s front back : Bytes) → split_first b s ≡ some (front, back) → s ≡ front ++ (b ∷ back)
unfolding split_first
split_first-joined b [] front back e = ground arith
split_first-joined b (c ∷ s) front back e = elim (Option-cases (split_first b s)) [
  | inl n ↦ ground arith
  | inr ((f, r), q) ↦ ground (arith, split_first-joined b s f r q)
]

split_last-joined :
    (b : ℕ) (s front back : Bytes) → split_last b s ≡ some (front, back) → s ≡ front ++ (b ∷ back)
unfolding split_last
split_last-joined b [] front back e = ground arith
split_last-joined b (c ∷ s) front back e = elim (Option-cases (split_last b s)) [
  | inl n ↦ ground arith
  | inr ((f, r), q) ↦ ground (arith, split_last-joined b s f r q)
]

-- A host name, alone, in front of a port, or in brackets.
abbrev pub IsWritten : Bytes → Bytes → Type 0
IsWritten value host =
    (value ≡ host)
    ⊎ ((port : Bytes) × (value ≡ host ++ (58 ∷ port)))
    ⊎ ((rest : Bytes) × (value ≡ 91 ∷ (host ++ (93 ∷ rest))))

bracketed-host :
    (s front inner rest host : Bytes)
    → bracketed s front (some (inner, rest)) ≡ some host
    → inner ≡ host
bracketed-host s front inner rest host e = ground arith

host_in_brackets :
    (c : ℕ) (s front port host : Bytes)
    → (c == 91) ≡ true
    → host_of (c ∷ s) (some (front, port)) ≡ some host
    → bracketed s front (split_first 93 s) ≡ some host
host_in_brackets c s front port host b e = ground arith

host_in_front :
    (c : ℕ) (s front port host : Bytes)
    → (c == 91) ≡ false
    → host_of (c ∷ s) (some (front, port)) ≡ some host
    → front ≡ host
host_in_front c s front port host b e = ground arith

bracketed-IsWritten :
    (s front host : Bytes) (split : Option (Bytes × Bytes))
    → split_first 93 s ≡ split
    → bracketed s front split ≡ some host
    → (rest : Bytes) × (s ≡ host ++ (93 ∷ rest))
bracketed-IsWritten s front host none q e = absurd (ground arith)
bracketed-IsWritten s front host (some (inner, rest)) q e = (
  rest,
  subst (λ h. s ≡ h ++ (93 ∷ rest)) (bracketed-host s front inner rest host e)
      (split_first-joined 93 s inner rest q),
)

host_of-IsWritten :
    (value host : Bytes) (split : Option (Bytes × Bytes))
    → split_last 58 value ≡ split
    → host_of value split ≡ some host
    → IsWritten value host
host_of-IsWritten value host none q e = absurd (ground arith)
host_of-IsWritten [] host (some (front, port)) q e = absurd (ground arith)
host_of-IsWritten (c ∷ s) host (some (front, port)) q e = elim (Bool-cases (c == 91)) [
  | inl b ↦
      let (rest, w) =
        bracketed-IsWritten s front host (split_first 93 s) refl
          (host_in_brackets c s front port host b e) in
      inr (inr (rest, ap (λ x. x ∷ s) ((==_iff c 91).0 b) ∙ ap (◌∷◌ 91) w))
  | inr b ↦ inr (
      inl (
        port,
        subst (λ h. c ∷ s ≡ h ++ (58 ∷ port)) (host_in_front c s front port host b e)
            (split_last-joined 58 (c ∷ s) front port q),
      ))
]

whole-IsWritten :
    (value : Bytes) (host : Option Bytes)
    → split_host_port value ≡ host
    → IsWritten value (or_whole value host)
unfolding split_host_port
whole-IsWritten value none q = inl refl
whole-IsWritten value (some host) q = host_of-IsWritten value host (split_last 58 value) refl q

local-IsWritten :
    (value host : Bytes)
    → is_local_name host ≡ true
    → IsWritten value host
    → IsWritten value (codes "127.0.0.1") ⊎ IsWritten value (codes "localhost")
unfolding is_local_name
local-IsWritten value host l w = elim (Bool-cases (bytes_eq host (codes "127.0.0.1"))) [
  | inl a ↦ inl (subst (IsWritten value) ((bytes_eq_iff host (codes "127.0.0.1")).0 a) w)
  | inr a ↦
      inr (subst (IsWritten value) ((bytes_eq_iff host (codes "localhost")).0 (ground arith)) w)
]

-- The header `Host` of a request that reaches a handler, and not a refusal, names 127.0.0.1 or localhost:
-- alone, in front of a port, or in brackets. So a page of another name, which a DNS server has pointed
-- at the dashboard, is refused.
pub route-IsWritten :
    (value : Bytes) (method : Method) (path : Bytes) (chosen : Route)
    → route value method path ≡ ok chosen
    → IsWritten value (codes "127.0.0.1") ⊎ IsWritten value (codes "localhost")
unfolding route allowed_request_host
route-IsWritten value method path chosen e =
    local-IsWritten value (or_whole value (split_host_port value)) (ground arith)
      (whole-IsWritten value (split_host_port value) refl)
