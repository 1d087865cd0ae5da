-- ===== src/Dashboard/Config/Roots.antt =====
-- The root of the projects that `normalizeProjectsRoot` (internal/dashboard/config.go) accepts.
use otherhost.Base.{
  ℕ, ◌≡◌, ◌≢◌, ◌⊎◌, refl, sym, ap, ◌∙◌, inl, inr, true, false, ◌||◌, List, [], ◌∷◌, ◌++◌, arith,
  append_assoc, Bytes, All, Bool-cases, any, bytes_eq, codes, drop, ok, reverse, reverse-append,
  ◌==◌, ==_iff, length,
}
use otherhost.Dashboard.Config.{clean_segments, is_odd_segment, normalize_projects_root}
use otherhost.Pairing.Names.{is_empty}
use otherhost.Text.Parts.{join, onto_first, split_on, trim_prefix}
use otherhost.Text.{contains_any, contains_byte, has_prefix}

-- A name of a directory, and no way back.
pub record IsPlainSegment (s : Bytes) : Type 0 where
  pub given : s ≢ []
  pub not_here : s ≢ codes "."
  pub not_up : s ≢ codes ".."

is_odd_segment-IsPlainSegment : (s : Bytes) → is_odd_segment s ≡ false → IsPlainSegment s
unfolding is_empty bytes_eq
is_odd_segment-IsPlainSegment s h = record {
  given = λ e. ground arith;
  not_here = λ e. ground (arith, ap is_odd_segment e);
  not_up = λ e. ground (arith, ap is_odd_segment e);
}

any-IsPlainSegment :
    (parts : List Bytes) → any is_odd_segment parts ≡ false → All IsPlainSegment parts
any-IsPlainSegment [] h = tt
any-IsPlainSegment (s ∷ parts) h =
    (is_odd_segment-IsPlainSegment s (ground arith), any-IsPlainSegment parts (ground arith))

-- Cleaning goes down through plain segments.
clean_segments-plain :
    (out parts : List Bytes)
    → any is_odd_segment parts ≡ false
    → clean_segments out parts ≡ reverse parts ++ out
unfolding clean_segments
clean_segments-plain out [] h = refl
clean_segments-plain out (s ∷ parts) h =
    let here : (is_empty s || bytes_eq s (codes ".")) ≡ false = ground arith in
    let up : bytes_eq s (codes "..") ≡ false = ground arith in
    rw (here, up) (clean_segments-plain (s ∷ out) parts (ground arith))
    ∙ sym (append_assoc (reverse parts) (s ∷ []) out)
    ∙ ap (λ t. t ++ out) (sym (reverse-append (s ∷ []) parts))

join-onto_first :
    (c : ℕ) (between : Bytes) (parts : List Bytes)
    → join between (onto_first c parts) ≡ c ∷ join between parts
unfolding join
join-onto_first c between [] = refl
join-onto_first c between (p ∷ []) = refl
join-onto_first c between (p ∷ q ∷ parts) = refl

split_on-cons : (b : ℕ) (s : Bytes) → (p : Bytes) × ((ps : List Bytes) × (split_on b s ≡ p ∷ ps))
unfolding split_on
split_on-cons b [] = ([], ([], refl))
split_on-cons b (c ∷ s) = elim (Bool-cases (c == b)) [
  | inl e ↦ ([], (split_on b s, rw e refl))
  | inr e ↦ let (p, (ps, q)) = split_on-cons b s in (c ∷ p, (ps, rw (e, q) refl))
]

-- A text is the join of its parts.
pub join-split_on : (b : ℕ) (s : Bytes) → join (b ∷ []) (split_on b s) ≡ s
unfolding join split_on
join-split_on b [] = refl
join-split_on b (c ∷ s) = elim (Bool-cases (c == b)) [
  | inl e ↦
      let (p, (ps, q)) = split_on-cons b s in
      rw (e, q)
        (ap (◌∷◌ b) (ap (join (b ∷ [])) (sym q) ∙ join-split_on b s)
          ∙ ap (λ a. a ∷ s) (sym ((==_iff c b).0 e)))
  | inr e ↦ rw e (join-onto_first c (b ∷ []) (split_on b s) ∙ ap (◌∷◌ c) (join-split_on b s))
]

has_prefix-drop : (s p : Bytes) → has_prefix s p ≡ true → s ≡ p ++ drop (length p) s
unfolding has_prefix
has_prefix-drop s [] h = refl
has_prefix-drop [] (c ∷ p) h = absurd (ground arith)
has_prefix-drop (d ∷ s) (c ∷ p) h = ground (arith, has_prefix-drop s p)

trim_prefix-joined : (s p : Bytes) → has_prefix s p ≡ true → s ≡ p ++ trim_prefix s p
unfolding trim_prefix
trim_prefix-joined s p h = has_prefix-drop s p h ∙ ap (λ t. p ++ t) (sym (rw h refl))

normalize_projects_root-parts :
    (value root : Bytes)
    → normalize_projects_root value ≡ ok root
    → ((value ≡ []) × (root ≡ codes "src"))
      ⊎ ((root ≡ trim_prefix value (codes "~/"))
          × (has_prefix value (codes "~/") ≡ true)
          × (contains_any root (b'\r' ∷ b'\n' ∷ 0 ∷ []) ≡ false)
          × (any is_odd_segment (split_on b'/' root) ≡ false))
unfolding normalize_projects_root is_empty
normalize_projects_root-parts [] root h = inl (refl, ground arith)
normalize_projects_root-parts (c ∷ value) root h = inr (ground arith)

-- Where the projects are, that the dashboard works on: an accepted root is made of plain segments, none
-- empty, `.` or `..`, joined by `/`, so that to clean it below any directory goes only down; it holds no
-- line end and no zero byte; and it is `src` for no value, and what follows `~/` for any other.
pub normalize_projects_root-IsPlainSegment :
    (value root : Bytes) (out : List Bytes)
    → normalize_projects_root value ≡ ok root
    → All IsPlainSegment (split_on b'/' root)
      × (join (codes "/") (split_on b'/' root) ≡ root)
      × (clean_segments out (split_on b'/' root) ≡ reverse (split_on b'/' root) ++ out)
      × (contains_any root (b'\r' ∷ b'\n' ∷ 0 ∷ []) ≡ false)
      × (((value ≡ []) × (root ≡ codes "src")) ⊎ (value ≡ codes "~/" ++ root))
unfolding split_on contains_any contains_byte bytes_eq is_empty
normalize_projects_root-IsPlainSegment value root out h =
    elim (normalize_projects_root-parts value root h) [
      | inl (e, r) ↦
          let s = ap (λ t. any is_odd_segment (split_on b'/' t)) r in
          let c = ap (λ t. contains_any t (b'\r' ∷ b'\n' ∷ 0 ∷ [])) r in
          (
            any-IsPlainSegment (split_on b'/' root) s,
            join-split_on b'/' root,
            clean_segments-plain out (split_on b'/' root) s,
            c,
            inl (e, r),
          )
      | inr (r, p, c, s) ↦ (
        any-IsPlainSegment (split_on b'/' root) s,
        join-split_on b'/' root,
        clean_segments-plain out (split_on b'/' root) s,
        c,
        inr (trim_prefix-joined value (codes "~/") p ∙ ap (λ t. codes "~/" ++ t) (sym r)),
      )
    ]
