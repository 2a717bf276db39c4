-- ===== src/Local/Tags.antt =====
-- The tags for `go list`, internal/parser/local.go.
use gomake.Base.{
  Str, List, [], ◌∷◌, All, join, split, split-join, Lacks, trim_space, str_eq, ◌≡◌, ◌≢◌, refl, ap,
  ◌∙◌, arith,
}
use gomake.Local.{comma, split_tags, keep_tags}

-- A tag that is written alone between commas.
abbrev pub IsTag : Str → Type 0
IsTag t = (t ≢ []) × (trim_space t ≡ t) × Lacks comma t

keep_tags-id : (tags : List Str) → All IsTag tags → keep_tags tags ≡ tags
unfolding keep_tags
keep_tags-id [] h = refl
keep_tags-id (t ∷ tags) ((n, e, l), h) = ground (arith, n, e, keep_tags-id tags h)

All-Lacks : (tags : List Str) → All IsTag tags → All (Lacks comma) tags
All-Lacks [] h = tt
All-Lacks (t ∷ tags) ((n, e, l), h) = (l, All-Lacks tags h)

-- Tags that are joined by commas for one flag are read back by `splitTags`.
split_tags-join : (tags : List Str) → All IsTag tags → split_tags (join comma tags) ≡ tags
unfolding split_tags str_eq trim_space
split_tags-join [] h = unfold join in unfold split in refl
split_tags-join (t ∷ tags) h =
    ap keep_tags (split-join comma t tags (All-Lacks (t ∷ tags) h)) ∙ keep_tags-id (t ∷ tags) h
