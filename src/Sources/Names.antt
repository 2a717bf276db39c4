-- ===== src/Sources/Names.antt =====
-- Names of makefiles, internal/cli/helpers.go.
use gomake.Base.{
  map, Str, Bool, true, List, [], ◌∷◌, ◌++◌, codes, ◌==◌, str_eq, nat_eq, ◌||◌, ◌&&◌, not,
  cut_prefix, cut_suffix, cut_suffix-append, cut_suffix_sound, cut_prefix-append, cut_prefix_sound,
  split, join, join-split, split-append, Lacks, contains, some, Option-cases, Bool-cases, arith,
  ◌≡◌, refl, sym, ap, subst, split-eq-singleton, ◌∙◌, ◌↔◌, inl, inr,
}
use gomake.Osarch.{goos, goarch, is_goos, is_goarch}
use gomake.Sources.{
  valid_makefile_name, valid_parts, makefile_main, underscore, select_makefiles,
  looks_like_makefile,
}

-- `makefile_<suffix>.go`
abbrev pub named : Str → Str
named suffix = codes "makefile_" ++ (suffix ++ codes ".go")

-- The forms that the documentation of `validMakefileName` lists.
pub data IsMakefileName (name : Str) : Type 0 where
  main : name ≡ makefile_main → IsMakefileName name
  by_os : (os : Str) → is_goos os ≡ true → name ≡ named os → IsMakefileName name
  by_arch : (arch : Str) → is_goarch arch ≡ true → name ≡ named arch → IsMakefileName name
  by_both :
      (os arch : Str)
      → is_goos os ≡ true
      → is_goarch arch ≡ true
      → name ≡ named (os ++ (underscore ∷ arch))
      → IsMakefileName name

lacks : Str → Bool
lacks s = not (contains s underscore)

all_lack : List Str → Bool
all_lack [] = true
all_lack (s ∷ ss) = lacks s && all_lack ss

lacks-Lacks : (s : Str) → lacks s ≡ true → Lacks underscore s
unfolding lacks contains
lacks-Lacks [] h = tt
lacks-Lacks (c ∷ s) h = ground (arith, lacks-Lacks s)

contains-lacks :
    (ss : List Str) (s : Str) → all_lack ss ≡ true → contains ss s ≡ true → lacks s ≡ true
unfolding all_lack contains
contains-lacks [] s h m = absurd (cc)
contains-lacks (t ∷ ss) s h m = ground (arith, contains-lacks ss s)

os-Lacks : (s : Str) → is_goos s ≡ true → Lacks underscore s
unfolding is_goos all_lack lacks goos contains nat_eq
os-Lacks s h = lacks-Lacks s (contains-lacks goos s refl h)

arch-Lacks : (s : Str) → is_goarch s ≡ true → Lacks underscore s
unfolding is_goarch all_lack lacks goarch contains nat_eq
arch-Lacks s h = lacks-Lacks s (contains-lacks goarch s refl h)

valid_parts-IsMakefileName :
    (ps : List Str) → valid_parts ps ≡ true → IsMakefileName (named (join underscore ps))
unfolding valid_parts join
valid_parts-IsMakefileName [] h = absurd (cc)
valid_parts-IsMakefileName (a ∷ []) h = elim (Bool-cases (is_goos a)) [
  | inl e ↦ by_os a e refl
  | inr e ↦ by_arch a (ground (arith, e)) refl
]
valid_parts-IsMakefileName (a ∷ b ∷ []) h = by_both a b (ground (arith, h)) (ground (arith, h)) refl
valid_parts-IsMakefileName (a ∷ b ∷ c ∷ more) h = absurd (cc)

module _ (name : Str) where
  valid-IsMakefileName : valid_makefile_name name ≡ true → IsMakefileName name
  unfolding valid_makefile_name
  valid-IsMakefileName h = elim (Bool-cases (name == makefile_main)) [
    | inl e ↦ main (ground (arith, e))
    | inr e ↦ elim (Option-cases (cut_prefix name (codes "makefile_"))) [
      | inl p ↦ absurd (ground (arith, e, p))
      | inr (mid, p) ↦ elim (Option-cases (cut_suffix mid (codes ".go"))) [
        | inl q ↦ absurd (ground (arith, e, p, q))
        | inr (s, q) ↦ subst IsMakefileName (sym (name_eq mid s p q)) (
            subst (λ t. IsMakefileName (named t)) (join-split underscore s)
              (valid_parts-IsMakefileName (split underscore s) (ground (arith, e, p, q))))
      ]
    ]
  ]
    where
      name_eq :
          (mid s : Str)
          → cut_prefix name (codes "makefile_") ≡ some mid
          → cut_suffix mid (codes ".go") ≡ some s
          → name ≡ named s
      name_eq mid s p q =
          cut_prefix_sound (codes "makefile_") name mid p
          ∙ ap (λ r. codes "makefile_" ++ r) (cut_suffix_sound mid (codes ".go") s q)

valid_named :
    (s : Str) → valid_parts (split underscore s) ≡ true → valid_makefile_name (named s) ≡ true
unfolding valid_makefile_name
valid_named s h =
    rw
      (
        valid_makefile_name,
        cut_prefix-append (codes "makefile_") (s ++ codes ".go"),
        cut_suffix-append s (codes ".go"),
      )
      (ground (arith, h))

valid_one :
    (s : Str)
    → Lacks underscore s
    → (is_goos s || is_goarch s) ≡ true
    → valid_makefile_name (named s) ≡ true
unfolding valid_parts
valid_one s l h = valid_named s (rw (split-eq-singleton underscore s l) h)

valid_two :
    (os arch : Str)
    → is_goos os ≡ true
    → is_goarch arch ≡ true
    → valid_makefile_name (named (os ++ (underscore ∷ arch))) ≡ true
unfolding valid_parts
valid_two os arch h g = valid_named (os ++ (underscore ∷ arch)) (
    rw
      (
        split-append underscore os arch (os-Lacks os h),
        split-eq-singleton underscore arch (arch-Lacks arch g),
        h,
      )
      g)

valid_main : valid_makefile_name makefile_main ≡ true
unfolding valid_makefile_name
valid_main = ground arith

-- `validMakefileName` accepts exactly the four documented forms: makefile.go, and makefile_ and .go
-- around a GOOS, a GOARCH, or a GOOS and a GOARCH with an underscore between them.
pub valid_makefile_name_iff : (name : Str) → (valid_makefile_name name ≡ true) ↔ IsMakefileName name
valid_makefile_name_iff name = (valid-IsMakefileName name, back)
  where
    back : IsMakefileName name → valid_makefile_name name ≡ true
    back (main e) = rw e valid_main
    back (by_os os h e) = rw e (valid_one os (os-Lacks os h) (ground (arith, h)))
    back (by_arch arch h e) = rw e (valid_one arch (arch-Lacks arch h) (ground (arith, h)))
    back (by_both os arch h g e) = rw e (valid_two os arch h g)

-- `selectMakefiles` keeps exactly the files with a valid base name, and reports exactly the base
-- names that look like a makefile's and are not valid.
pub select_makefiles_lem :
    (base : Str → Str) (files : List Str) (f n : Str)
    → (contains (select_makefiles base files).0 f
        ≡ (contains files f && valid_makefile_name (base f)))
      × (contains (select_makefiles base files).1 n
          ≡ (contains (map base files) n && (looks_like_makefile n && not (valid_makefile_name n))))
unfolding select_makefiles contains
select_makefiles_lem base [] f n = (refl, refl)
select_makefiles_lem base (g ∷ files) f n = ground (arith, select_makefiles_lem base files f n)
