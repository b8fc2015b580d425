-- ===== src/Routes/Match/Path.antt =====
-- What a prefix route matches, described without the code's case distinctions.
use customrouter.Base.{
  ◌-◌, Text, codes, text_eq_iff, has_prefix, has_suffix, trim_suffix, length, take, drop,
  drop-append, has_prefix-append, has_prefix→append, has_suffix_slash, trim_suffix_slash,
  has_suffix→append, true, false, ◌||◌, [], ◌∷◌, ◌++◌, append_assoc, append-nil, ◌≡◌, ◌⊎◌, ◌↔◌, inl,
  inr, refl, sym, ap, subst, ◌∙◌, arith, Bool-cases,
}
use customrouter.Routes.Match.{match_prefix, at_boundary}

-- A path is the base itself, or goes on behind it with a slash: whole segments only.
abbrev pub IsUnder : Text → Text → Type 0
IsUnder base path = (path ≡ base) ⊎ ((rest : Text) × (path ≡ base ++ b'/' ∷ rest))

at_boundary→IsUnder : (base rest : Text) → at_boundary rest ≡ true → IsUnder base (base ++ rest)
unfolding at_boundary
at_boundary→IsUnder base [] h = inl (append-nil base)
at_boundary→IsUnder base (c ∷ rest) h = inr (rest, ap (λ d. base ++ d ∷ rest) (ground arith))

-- The first test of the branch, at a path that continues the pattern.
matches_continued :
    (pattern rest : Text)
    → (at_boundary rest || has_suffix pattern (codes "/")) ≡ true
    → match_prefix pattern (pattern ++ rest) ≡ true
unfolding match_prefix
matches_continued pattern rest h = rw (has_prefix-append pattern rest, drop-append pattern rest, h)

module _ (pattern path : Text) where
  -- A pattern that does not end in a slash.
  open_pattern :
      has_suffix pattern (codes "/") ≡ false
      → (match_prefix pattern path ≡ true) ↔ IsUnder pattern path
  unfolding match_prefix at_boundary
  open_pattern h = (
    λ m.
        let e : path ≡ pattern ++ drop (length pattern) path =
          has_prefix→append path pattern (ground (arith, m)) in
        let u = at_boundary→IsUnder pattern (drop (length pattern) path) (ground (arith, m)) in
        rw (← e) at u,
    elim [
      | inl e ↦
          subst (λ p. match_prefix pattern p ≡ true) (append-nil pattern ∙ sym e)
            (matches_continued pattern [] refl)
      | inr (rest, e) ↦
          subst (λ p. match_prefix pattern p ≡ true) (sym e)
            (matches_continued pattern (b'/' ∷ rest) refl)
    ],
  )

-- A pattern that ends in a slash.
module _ (base path : Text) where
  closed_sound : match_prefix (base ++ codes "/") path ≡ true → IsUnder base path
  unfolding match_prefix
  closed_sound m = elim (Bool-cases (has_prefix path (base ++ codes "/"))) [
    | inl p ↦ inr (
      drop (length (base ++ codes "/")) path,
      has_prefix→append path _ p ∙ append_assoc base (codes "/") _,
    )
    | inr p ↦ inl (
        (text_eq_iff path base).0
          (ground (arith, m, has_suffix_slash base, trim_suffix_slash base)))
  ]

  closed_complete : IsUnder base path → match_prefix (base ++ codes "/") path ≡ true
  unfolding match_prefix
  closed_complete (inl e) =
      ground (arith, has_suffix_slash base, trim_suffix_slash base, (text_eq_iff path base).1 e)
  closed_complete (inr (rest, e)) =
      subst (λ p. match_prefix (base ++ codes "/") p ≡ true)
        (append_assoc base (codes "/") rest ∙ sym e)
        (matches_continued (base ++ codes "/") rest (rw (has_suffix_slash base) (ground arith)))

pub trim_suffix_of_open :
    (s : Text) → has_suffix s (codes "/") ≡ false → trim_suffix s (codes "/") ≡ s
unfolding trim_suffix
trim_suffix_of_open s h = rw h

-- A prefix route matches a path exactly when the path is the pattern without its final slash, if it
-- has one, or goes on behind that with a slash: complete path segments, never a part of one.
pub match_prefix_iff :
    (pattern path : Text)
    → (match_prefix pattern path ≡ true) ↔ IsUnder (trim_suffix pattern (codes "/")) path
match_prefix_iff pattern path = elim (Bool-cases (has_suffix pattern (codes "/"))) [
  | inl closed ↦
      let base = take (length pattern - 1) pattern in
      rw (has_suffix→append pattern closed, trim_suffix_slash base)
        (closed_sound base path, closed_complete base path)
  | inr still_open ↦
      rw (trim_suffix_of_open pattern still_open) (open_pattern pattern path still_open)
]
