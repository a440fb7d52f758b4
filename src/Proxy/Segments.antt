-- ===== src/Proxy/Segments.antt =====
-- src/proxy/service.rs: paths and their segments.
use mpp_movement.Prelude.{
  ℕ, ◌≡◌, refl, sym, ap, ◌∙◌, inl, inr, ◌⊎◌, ◌↔◌, ==_iff, suc, true, false, not, List, [], ◌∷◌,
  some, arith, ◌==◌, length, is_empty, filter, All, Bool-cases,
}
use mpp_movement.Text.{Text, codes, split, cons_head, join, contains_char, starts_with}
use mpp_movement.Text.Equality.{text_eq_sound, text_eq_refl}
use mpp_movement.Text.Splitting.{split-append, split_of_one}
use mpp_movement.Proxy.{segments_of, segments_match, path_matches}
use mpp_movement.Proxy.Config.{parse_path, path_of}

-- A segment as a path can hold it.
abbrev pub IsSegment : Text → Type 0
IsSegment s = (is_empty s ≡ false) × (contains_char b'/' s ≡ false)

split-join :
    (s : Text) (segments : List Text)
    → All IsSegment (s ∷ segments)
    → split b'/' (join (codes "/") (s ∷ segments)) ≡ s ∷ segments
split-join s [] h = split_of_one b'/' s h.0.1
split-join s (t ∷ segments) h =
    split-append b'/' s (join (codes "/") (t ∷ segments)) h.0.1
    ∙ ap (◌∷◌ s) (split-join t segments h.1)

keeps_segments :
    (segments : List Text)
    → All IsSegment segments
    → filter (λ s. not (is_empty s)) segments ≡ segments
keeps_segments [] h = refl
keeps_segments (s ∷ segments) h = rw (h.0.0) (ap (◌∷◌ s) (keeps_segments segments h.1))

-- A leading slash adds no segment.
pub segments_of-slash : (path : Text) → segments_of (b'/' ∷ path) ≡ segments_of path
unfolding segments_of
segments_of-slash path = refl

-- A path that is written from segments has these segments.
pub segments_of-join :
    (segments : List Text)
    → All IsSegment segments
    → segments_of (b'/' ∷ join (codes "/") segments) ≡ segments
unfolding segments_of
segments_of-join [] h = refl
segments_of-join (s ∷ segments) h =
    ap (filter (λ s. not (is_empty s))) (split-join s segments h) ∙ keeps_segments (s ∷ segments) h

abbrev NoSlash : Text → Type 0
NoSlash s = contains_char b'/' s ≡ false

cons_head-NoSlash :
    (c : ℕ) (parts : List Text)
    → (c == b'/') ≡ false
    → All NoSlash parts
    → All NoSlash (cons_head c parts)
cons_head-NoSlash c [] h k = (rw h refl, tt)
cons_head-NoSlash c (p ∷ ps) h k = (rw (h, k.0) refl, k.1)

split-NoSlash : (path : Text) → All NoSlash (split b'/' path)
split-NoSlash [] = (refl, tt)
split-NoSlash (c ∷ s) = elim (Bool-cases (c == b'/')) [
  | inl slash ↦ rw slash (refl, split-NoSlash s)
  | inr other ↦ rw other (cons_head-NoSlash c _ other (split-NoSlash s))
]

filter-IsSegment :
    (parts : List Text) → All NoSlash parts → All IsSegment (filter (λ s. not (is_empty s)) parts)
filter-IsSegment [] h = tt
filter-IsSegment ([] ∷ parts) h = filter-IsSegment parts h.1
filter-IsSegment ((c ∷ s) ∷ parts) h = ((refl, h.0), filter-IsSegment parts h.1)

pub segments_of-IsSegment : (path : Text) → All IsSegment (segments_of path)
unfolding segments_of
segments_of-IsSegment path = filter-IsSegment (split b'/' path) (split-NoSlash path)

-- Nothing of a path is lost: its segments are the service's id and those of the upstream path.
pub parse_path_segments :
    (path id upstream : Text)
    → parse_path path ≡ some (id, upstream)
    → segments_of path ≡ id ∷ segments_of upstream
unfolding parse_path
parse_path_segments path id upstream e = go (segments_of path) (segments_of-IsSegment path) e
  where
    go :
        (segments : List Text)
        → All IsSegment segments
        → path_of segments ≡ some (id, upstream)
        → segments ≡ id ∷ segments_of upstream
    go [] h e = absurd (cc)
    go (s ∷ segments) h e =
        let same : s ≡ id = cc in
        let written : b'/' ∷ join (codes "/") segments ≡ upstream = cc in
        ap (λ x. x ∷ segments) same
        ∙ ap (◌∷◌ id) (sym (segments_of-join segments h.1) ∙ ap segments_of written)

-- Each segment of the pattern is a parameter or the segment of the path.
abbrev pub Fits : List Text → List Text → Type 0
Fits [] [] = Unit
Fits (pat ∷ pats) (seg ∷ segs) =
    ((starts_with (codes ":") pat ≡ true) ⊎ (pat ≡ seg)) × Fits pats segs
Fits _ _ = ⊥

segments_match-Fits :
    (pats segs : List Text)
    → length pats ≡ length segs
    → segments_match pats segs ≡ true
    → Fits pats segs
segments_match-Fits [] [] e h = tt
segments_match-Fits [] (seg ∷ segs) e h = absurd (omega arith)
segments_match-Fits (pat ∷ pats) [] e h = absurd (omega arith)
segments_match-Fits (pat ∷ pats) (seg ∷ segs) e h =
    elim (Bool-cases (starts_with (codes ":") pat)) [
      | inl param ↦
          (inl param, segments_match-Fits pats segs (omega (arith, e)) (ground (arith, h)))
      | inr literal ↦ (
        inr (text_eq_sound pat seg (ground (arith, h, literal))),
        segments_match-Fits pats segs (omega (arith, e)) (ground (arith, h)),
      )
    ]

Fits-length : (pats segs : List Text) → Fits pats segs → length pats ≡ length segs
Fits-length [] [] h = refl
Fits-length [] (seg ∷ segs) h = absurd h
Fits-length (pat ∷ pats) [] h = absurd h
Fits-length (pat ∷ pats) (seg ∷ segs) h = ap suc (Fits-length pats segs h.1)

Fits-segments_match : (pats segs : List Text) → Fits pats segs → segments_match pats segs ≡ true
Fits-segments_match [] [] h = refl
Fits-segments_match [] (seg ∷ segs) h = absurd h
Fits-segments_match (pat ∷ pats) [] h = absurd h
Fits-segments_match (pat ∷ pats) (seg ∷ segs) (inl param, h) =
    rw param (Fits-segments_match pats segs h)
Fits-segments_match (pat ∷ pats) (seg ∷ segs) (inr same, h) =
    rw (same, text_eq_refl seg) (ground (arith, Fits-segments_match pats segs h))

-- A pattern matches a path exactly where their segments, empty ones left out, are equally many and
-- each one of the pattern is a parameter or equal to the one of the path.
pub path_matches_iff :
    (pattern path : Text)
    → (path_matches pattern path ≡ true) ↔ Fits (segments_of pattern) (segments_of path)
unfolding path_matches
path_matches_iff pattern path = (to, from)
  where
    to : path_matches pattern path ≡ true → Fits (segments_of pattern) (segments_of path)
    to h = elim (Bool-cases (length (segments_of pattern) == length (segments_of path))) [
      | inl same ↦ segments_match-Fits _ _ ((==_iff _ _).0 same) (ground (arith, h, same))
      | inr other ↦ absurd (ground (arith, h, other))
    ]

    from : Fits (segments_of pattern) (segments_of path) → path_matches pattern path ≡ true
    from h = rw ((==_iff _ _).1 (Fits-length _ _ h)) (Fits-segments_match _ _ h)
