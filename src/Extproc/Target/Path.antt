-- ===== src/Extproc/Target/Path.antt =====
-- The segments of a request target.
use customrouter.Base.{
  ℕ, Text, codes, All, All-append, All-imp, select, is_empty, false, not, List, [], ◌∷◌, ◌++◌,
  append_assoc, append-nil, ◌≡◌, inl, inr, refl, sym, ap, subst, ◌∙◌, arith, ◌==◌, Bool-cases,
  split, join, before_any, split-join, split-All, before_any-All, before_any-free,
}
use customrouter.Extproc.Target.{split_path, is_target_end}
use customrouter.Extproc.Target.Join.{goes_on}

-- A segment is not empty and holds no slash, question mark or hash sign.
abbrev pub IsPlain : ℕ → Type 0
IsPlain c = ((c == b'/') ≡ false) × (is_target_end c ≡ false)

abbrev pub IsSegment : Text → Type 0
IsSegment s = (is_empty s ≡ false) × All IsPlain s

select-same : (ss : List Text) → All IsSegment ss → select (λ p. not (is_empty p)) ss ≡ ss
unfolding select
select-same [] h = refl
select-same (s ∷ ss) ((e, g), h) = rw e (ap (◌∷◌ s) (select-same ss h))

join-All :
    (ss : List Text) → All IsSegment ss → All (λ c. is_target_end c ≡ false) (join ss (codes "/"))
unfolding join
join-All [] h = tt
join-All (s ∷ []) ((_, g), _) = All-imp (λ c. λ (_, e). e) s g
join-All (s ∷ t ∷ ss) ((_, g), h) =
    subst (All (λ c. is_target_end c ≡ false))
      (sym (append_assoc s (codes "/") (join (t ∷ ss) (codes "/"))))
      (All-append (λ c. is_target_end c ≡ false) s (b'/' ∷ join (t ∷ ss) (codes "/"))
        (All-imp (λ c. λ (_, e). e) s g) (refl, join-All (t ∷ ss) h))

at_end : (tail : Text) → goes_on tail ≡ false → before_any is_target_end tail ≡ []
unfolding before_any
at_end [] h = refl
at_end (c ∷ tail) h = ground (arith, h)

segments :
    (ss : List Text)
    → All IsSegment ss
    → select (λ p. not (is_empty p)) (split (b'/' ∷ join ss (codes "/")) b'/') ≡ ss
unfolding select split join
segments [] h = refl
segments (s ∷ ss) h =
    ap (select (λ p. not (is_empty p))) (
      split-join b'/' [] (s ∷ ss)
        (tt, All-imp (λ p. λ (_, g). All-imp (λ c. λ (e, _). e) p g) (s ∷ ss) h))
    ∙ select-same (s ∷ ss) h

-- The segments of a slash and some segments joined by slashes, with a query or a fragment behind or
-- not, are those segments.
pub split_path-join :
    (ss : List Text) (tail : Text)
    → All IsSegment ss
    → goes_on tail ≡ false
    → split_path (b'/' ∷ join ss (codes "/") ++ tail) ≡ ss
unfolding split_path
split_path-join ss tail h e =
    ap (λ t. select (λ p. not (is_empty p)) (split t b'/'))
      (before_any-free is_target_end (b'/' ∷ join ss (codes "/")) tail (refl, join-All ss h)
        ∙ ap (◌++◌ (b'/' ∷ join ss (codes "/"))) (at_end tail e)
        ∙ append-nil (b'/' ∷ join ss (codes "/")))
    ∙ segments ss h

keep-IsSegment :
    (ps : List Text) → All (All IsPlain) ps → All IsSegment (select (λ p. not (is_empty p)) ps)
unfolding select
keep-IsSegment [] h = tt
keep-IsSegment (p ∷ ps) (g, h) = elim (Bool-cases (is_empty p)) [
  | inl e ↦ rw e (keep-IsSegment ps h)
  | inr e ↦ rw e ((e, g), keep-IsSegment ps h)
]

zip-IsPlain :
    (p : Text)
    → All (λ c. (c == b'/') ≡ false) p
    → All (λ c. is_target_end c ≡ false) p
    → All IsPlain p
zip-IsPlain [] _ _ = tt
zip-IsPlain (c ∷ p) (a, f) (b, g) = ((a, b), zip-IsPlain p f g)

-- Whatever the target, each of its segments is one: not empty, within the path, without a slash.
pub split_path-IsSegment : (target : Text) → All IsSegment (split_path target)
unfolding split_path
split_path-IsSegment target = keep-IsSegment _ (
    All-imp (λ p. λ (f, g). zip-IsPlain p f g) _
      (split-All b'/' (λ c. is_target_end c ≡ false) (before_any is_target_end target)
        (before_any-All is_target_end target)))
