-- ===== src/Api/Validation/Origin.antt =====
-- What a valid CORS origin is.
use customrouter.Base.{
  ℕ, Text, codes, All, All-imp, true, false, [], ◌++◌, ◌≡◌, ◌≢◌, ◌⊎◌, ◌↔◌, inl, inr, arith,
  Bool-cases, has_prefix, has_prefix→append, any-eq-false, drop,
}
use customrouter.Api.Validation.{is_valid_cors_origin, is_bare_host, is_delimiter}

-- No path, query or fragment.
abbrev pub IsHostByte : ℕ → Type 0
IsHostByte c = (c ≢ b'/') × (c ≢ b'?') × (c ≢ b'#')

abbrev pub IsHost : Text → Type 0
IsHost host = (host ≢ []) × All IsHostByte host

-- A scheme, "://" and a host.
abbrev pub IsOrigin : Text → Type 0
IsOrigin origin =
    (host : Text) × ((origin ≡ codes "https://" ++ host) ⊎ (origin ≡ codes "http://" ++ host))
    × IsHost host

not_delimiter : (c : ℕ) → c ≢ b'/' → c ≢ b'?' → c ≢ b'#' → is_delimiter c ≡ false
not_delimiter c s q f = ground arith

is_bare_host_iff : (host : Text) → (is_bare_host host ≡ true) ↔ IsHost host
is_bare_host_iff host = (
  λ h.
      let clean = (any-eq-false is_delimiter host).0 (ground (arith, h)) in
      (
        ground (arith, h),
        All-imp (λ c e. (ground (arith, e), ground (arith, e), ground (arith, e))) host clean,
      ),
  λ (full, clean).
      let none_found =
        (any-eq-false is_delimiter host).1
          (All-imp (λ c (s, q, f). not_delimiter c s q f) host clean) in
      rw none_found (ground (arith, full)),
)

-- An origin is accepted exactly when it is "http://" or "https://" and a non-empty host with no
-- slash, question mark or hash.
pub is_valid_cors_origin_iff :
    (origin : Text) → (is_valid_cors_origin origin ≡ true) ↔ IsOrigin origin
unfolding is_valid_cors_origin
is_valid_cors_origin_iff origin = (
  λ h. elim (Bool-cases (has_prefix origin (codes "https://"))) [
    | inl s ↦ (
      drop 8 origin,
      inl (has_prefix→append origin (codes "https://") s),
      (is_bare_host_iff _).0 (rw s at h),
    )
    | inr s ↦ elim (Bool-cases (has_prefix origin (codes "http://"))) [
      | inl p ↦ (
        drop 7 origin,
        inr (has_prefix→append origin (codes "http://") p),
        (is_bare_host_iff _).0 (rw (s, p) at h),
      )
      | inr p ↦ absurd (ground (arith, h, s, p))
    ]
  ],
  λ (host, shape, valid). elim shape [
    | inl e ↦ rw e (unfold has_prefix in (is_bare_host_iff host).1 valid)
    | inr e ↦ rw e (unfold has_prefix in (is_bare_host_iff host).1 valid)
  ],
)
