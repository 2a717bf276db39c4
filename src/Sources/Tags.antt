-- ===== src/Sources/Tags.antt =====
-- Build tags of makefiles, `stripBuildTag` of internal/cli/helpers.go.
use gomake.Base.{
  contains, ◌≢◌, ◌↔◌, ◌⊎◌, inl, inr, Bool-cases, Option-cases, sym, ==_iff, ℕ, Str, Bool, true,
  false, List, [], ◌∷◌, codes, ◌==◌, str_eq, nat_eq, ◌||◌, ◌&&◌, split, join, Lacks, All, Option,
  none, some, if◌then◌else◌, arith, ◌≡◌, refl, ap, ◌∙◌, trim_space, split-join, split-Lacks,
}

-- `constraint.Expr`
pub data Expr : Type 0 where
  tag : Str → Expr
  not_expr : Expr → Expr
  and_expr : Expr → Expr → Expr
  or_expr : Expr → Expr → Expr

-- `hasTag`
unfoldable pub has_tag : Expr → Str → Bool
has_tag (tag t) name = t == name
has_tag (not_expr x) name = has_tag x name
has_tag (and_expr x y) name = has_tag x name || has_tag y name
has_tag (or_expr x y) name = has_tag x name || has_tag y name

-- parser.BuildTag
abbrev pub build_tag : Str
build_tag = codes "gomake"

abbrev pub newline : ℕ
newline = b'\n'

-- Replaces CRLF by a newline.
unfoldable pub normalize_newlines : Str → Str
normalize_newlines [] = []
normalize_newlines (c ∷ []) = c ∷ []
normalize_newlines (c ∷ d ∷ s) =
    let rest = normalize_newlines (d ∷ s) in if c == 0x0d && d == newline then rest else c ∷ rest

-- A constraint has the tag somewhere.
abbrev pub Mentions : Expr → Str → Type 0
Mentions (tag t) name = t ≡ name
Mentions (not_expr x) name = Mentions x name
Mentions (and_expr x y) name = Mentions x name ⊎ Mentions y name
Mentions (or_expr x y) name = Mentions x name ⊎ Mentions y name

or_iff : {P Q : Type 0} (a b : Bool) → (a ≡ true) ↔ P → (b ≡ true) ↔ Q → ((a || b) ≡ true) ↔ (P ⊎ Q)
or_iff true b p q = (λ h. inl (p.0 refl), λ h. refl)
or_iff false b p q = (λ h. inr (q.0 h), λ h. elim h [ inl x ↦ absurd (cc (p.1 x)) | inr y ↦ q.1 y ])

has_tag_iff : (x : Expr) (name : Str) → (has_tag x name ≡ true) ↔ Mentions x name
unfolding has_tag
has_tag_iff (tag t) name = ==_iff t name
has_tag_iff (not_expr x) name = has_tag_iff x name
has_tag_iff (and_expr x y) name =
    or_iff (has_tag x name) (has_tag y name) (has_tag_iff x name) (has_tag_iff y name)
has_tag_iff (or_expr x y) name =
    or_iff (has_tag x name) (has_tag y name) (has_tag_iff x name) (has_tag_iff y name)

blank : trim_space [] ≡ []
unfolding trim_space
blank = refl

contains-split-join :
    (ls : List Str) (line : Str)
    → trim_space line ≢ []
    → All (Lacks newline) ls
    → contains (split newline (join newline ls)) line ≡ contains ls line
unfolding split join contains
contains-split-join [] line n l = ground (arith, n, blank)
contains-split-join (a ∷ ls) line n l = ap (λ m. contains m line) (split-join newline a ls l)

-- `parse` is constraint.Parse; `none` is its error.
module _ (parse : Str → Option Expr) where
  -- `isGomakeConstraintLine`
  unfoldable pub is_gomake_constraint_line : Str → Bool
  is_gomake_constraint_line line = elim (parse (trim_space line)) [
    | none ↦ false
    | some expr ↦ has_tag expr build_tag
  ]

  -- The loop of `stripBuildTag`; the flag is `skipNextBlank`.
  unfoldable pub strip_lines : Bool → List Str → List Str
  strip_lines skip [] = []
  strip_lines skip (line ∷ lines) =
      let stripped = strip_lines true lines in
      let rest = strip_lines false lines in
      if is_gomake_constraint_line (trim_space line)
      then stripped
      else if skip && trim_space line == []
      then rest
      else line ∷ rest

  -- `stripBuildTag`
  unfoldable pub strip_build_tag : Str → Str
  unfolding strip_lines is_gomake_constraint_line
  strip_build_tag fil_data =
      join newline (strip_lines false (split newline (normalize_newlines fil_data)))

  -- A line is a build constraint that mentions the tag gomake.
  abbrev pub IsConstraint : Str → Type 0
  IsConstraint line =
      (x : Expr) × (parse (trim_space (trim_space line)) ≡ some x) × Mentions x build_tag

  is_gomake_constraint_line_iff :
      (line : Str) → (is_gomake_constraint_line (trim_space line) ≡ true) ↔ IsConstraint line
  unfolding is_gomake_constraint_line
  is_gomake_constraint_line_iff line = elim (Option-cases (parse (trim_space (trim_space line)))) [
    | inl e ↦ (λ h. absurd (ground (arith, e, h)), λ (x, q, n). absurd (cc (e, q)))
    | inr (y, e) ↦ (
      λ h. (y, e, (has_tag_iff y build_tag).0 (ground (arith, e, h))),
      λ (x, q, n). rw (is_gomake_constraint_line, q) ((has_tag_iff x build_tag).1 n),
    )
  ]

  strip_lines_sound :
      (skip : Bool) (lines : List Str) (line : Str)
      → contains (strip_lines skip lines) line ≡ true
      → (contains lines line ≡ true) × (is_gomake_constraint_line (trim_space line) ≡ false)
  unfolding strip_lines contains
  strip_lines_sound skip [] line h = absurd (cc)
  strip_lines_sound skip (l ∷ lines) line h =
      ground (arith, strip_lines_sound true lines line, strip_lines_sound false lines line)

  strip_lines_complete :
      (skip : Bool) (lines : List Str) (line : Str)
      → trim_space line ≢ []
      → contains lines line ≡ true
      → is_gomake_constraint_line (trim_space line) ≡ false
      → contains (strip_lines skip lines) line ≡ true
  unfolding strip_lines contains
  strip_lines_complete skip [] line n h p = absurd (cc)
  strip_lines_complete skip (l ∷ lines) line n h p =
      ground
        (arith, strip_lines_complete true lines line n, strip_lines_complete false lines line n)

  strip_lines-All :
      (P : Str → Type 0) (skip : Bool) (lines : List Str)
      → All P lines
      → All P (strip_lines skip lines)
  unfolding strip_lines
  strip_lines-All P skip [] h = tt
  strip_lines-All P skip (line ∷ lines) h =
      ground (arith, strip_lines-All P true lines, strip_lines-All P false lines)

  split_strip :
      (s line : Str)
      → trim_space line ≢ []
      → contains (split newline (strip_build_tag s)) line
        ≡ contains (strip_lines false (split newline (normalize_newlines s))) line
  unfolding strip_build_tag
  split_strip s line n =
      contains-split-join (strip_lines false (split newline (normalize_newlines s))) line n (
        strip_lines-All (Lacks newline) false (split newline (normalize_newlines s))
          (split-Lacks newline (normalize_newlines s)))

  -- A line that is not blank is a line of the stripped makefile exactly when it is one of the
  -- makefile, with CRLF read as a newline, and is no build constraint that mentions the tag gomake,
  -- be it negated or on any side of a conjunction or a disjunction.
  pub strip_build_tag_iff :
      (s line : Str)
      → trim_space line ≢ []
      → (contains (split newline (strip_build_tag s)) line ≡ true)
        ↔ ((contains (split newline (normalize_newlines s)) line ≡ true) × ¬ IsConstraint line)
  strip_build_tag_iff s line n =
      let lines = split newline (normalize_newlines s) in
      (
        λ h.
            (let (m, p) = strip_lines_sound false lines line (sym (split_strip s line n) ∙ h) in
              (m, (λ c. absurd (cc (p, (is_gomake_constraint_line_iff line).1 c))))),
        λ (m, c).
            split_strip s line n
            ∙ strip_lines_complete false lines line n m
                (elim (Bool-cases (is_gomake_constraint_line (trim_space line))) [
                  | inl x ↦ absurd (c ((is_gomake_constraint_line_iff line).0 x))
                  | inr x ↦ x
                ]),
      )
