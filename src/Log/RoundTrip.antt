-- ===== src/Log/RoundTrip.antt =====
-- The flag of the log level, printed and read.
use silkoroutine.Common.{
  true, Bytes, [], ◌∷◌, some, ◌==◌, ==_iff, ◌≡◌, refl, ◌↔◌, arith, Bool-cases, inl, inr,
}
use silkoroutine.Log.{LogLevels, is_same, parse_flag, unparse_flag}

is_same-eq : (s t : Bytes) → is_same s t ≡ true → s ≡ t
is_same-eq [] [] h = refl
is_same-eq [] (d ∷ t) h = cc
is_same-eq (c ∷ s) [] h = cc
is_same-eq (c ∷ s) (d ∷ t) h = elim (Bool-cases (c == d)) [
  | inl e ↦ cc ((==_iff c d).0 e, is_same-eq s t (rw e at h))
  | inr e ↦ cc (rw e at h)
]

parse_flag-some :
    (text : Bytes) (level : LogLevels)
    → parse_flag text ≡ some level
    → is_same text (unparse_flag level) ≡ true
unfolding parse_flag unparse_flag
parse_flag-some text level h = ground arith

unparse_flag-read : (level : LogLevels) → parse_flag (unparse_flag level) ≡ some level
unfolding parse_flag unparse_flag
unparse_flag-read level = ground arith

-- A text is read as a level exactly if the level is printed as that text: each level that is
-- printed is read back, and no other text is read as it.
parse_flag_iff :
    (text : Bytes) (level : LogLevels)
    → (parse_flag text ≡ some level) ↔ (text ≡ unparse_flag level)
parse_flag_iff text level =
    (λ h. is_same-eq _ _ (parse_flag-some text level h), λ e. rw e (unparse_flag-read level))
