-- ===== src/ConfigFile/Delivered.antt =====
-- The block that `resolveDelivered` of internal/cli/config_file.go gives a target.
use gomake.Base.{
  true, false, List, [], ◌∷◌, ◌++◌, ◌≡◌, ◌≢◌, refl, arith, Option, none, some, ◌==◌, str_eq,
  Bool-cases, ap, contains, join, subst, ◌⊎◌, append-nil, contains-append, ==_refl, All, Str,
  All-append_left, split, append_assoc, inl, inr, sym,
}
use gomake.Value.{Fields, lookup_field, child, is_empty}
use gomake.Target.{Target}
use gomake.ConfigFile.{
  setting_keys, full_key, colon, known_nodes, name_path, block_of, resolve_delivered, target_imp,
  imp_in_module, prefixes, non_empty,
}
use gomake.ConfigFile.Block.{
  nearest, own_block, or_else, resolve_target_block-nearest, lookup_field-setting_keys,
}

-- The node that a path leads to.
pub reached : Fields → List Str → Option Fields
reached node [] = some node
reached node (c ∷ path) = elim (child c node) [ none ↦ none | some sub ↦ reached sub path ]

-- The block holds the settings, not none of them, of the node to which a start of the path leads,
-- from a node that stands behind the elements `prefix`.
abbrev pub IsBlockOf : List Str → List Str → Fields → List Str → Fields → Type 0
IsBlockOf known prefix root path blk =
    (before : List Str) × (after : List Str) × (node : Fields) × (path ≡ before ++ after)
    × (reached root before ≡ some node)
    × (blk ≡ setting_keys (prefix ++ before) node known)
    × (is_empty blk ≡ false)

own_lem :
    (known prefix path : List Str) (node blk : Fields)
    → own_block known prefix node ≡ some blk
    → IsBlockOf known prefix node path blk
unfolding reached
own_lem known prefix path node blk h =
    elim (Bool-cases (is_empty (setting_keys prefix node known))) [
      | inl e ↦ absurd (ground arith)
      | inr e ↦ ([], path, node, refl, refl, rw (append-nil prefix) (ground arith), ground arith)
    ]

or_else-cases :
    (a b : Option Fields) (blk : Fields) → or_else a b ≡ some blk → (a ≡ some blk) ⊎ (b ≡ some blk)
or_else-cases none b blk h = inr h
or_else-cases (some a) b blk h = inl h

IsBlockOf-child :
    (known prefix path : List Str) (c : Str) (node sub blk : Fields)
    → child c node ≡ some sub
    → IsBlockOf known (prefix ++ (c ∷ [])) sub path blk
    → IsBlockOf known prefix node (c ∷ path) blk
unfolding reached
IsBlockOf-child known prefix path c node sub blk e (before, after, n, p, r, b, ne) = (
  c ∷ before,
  after,
  n,
  ap (λ q. c ∷ q) p,
  rw (reached, e) r,
  rw (← append_assoc prefix (c ∷ []) before) b,
  ne,
)

nearest-IsBlockOf :
    (known : List Str) (path prefix : List Str) (node blk : Fields)
    → nearest known prefix node path ≡ some blk
    → IsBlockOf known prefix node path blk
unfolding nearest
nearest-IsBlockOf known [] prefix node blk h = own_lem known prefix [] node blk h
nearest-IsBlockOf known (c ∷ path) prefix node blk h =
    go (child c node) refl (λ sub hs. nearest-IsBlockOf known path (prefix ++ (c ∷ [])) sub blk hs)
  where
    go :
        (o : Option Fields)
        → child c node ≡ o
        → ((sub : Fields)
            → nearest known (prefix ++ (c ∷ [])) sub path ≡ some blk
            → IsBlockOf known (prefix ++ (c ∷ [])) sub path blk)
        → IsBlockOf known prefix node (c ∷ path) blk
    go none e ih = own_lem known prefix (c ∷ path) node blk (ground arith)
    go (some sub) e ih =
        elim (or_else-cases (nearest known (prefix ++ (c ∷ [])) sub path)
          (own_block known prefix node) blk (ground arith)) [
            | inl a ↦ IsBlockOf-child known prefix path c node sub blk e (ih sub a)
            | inr b ↦ own_lem known prefix (c ∷ path) node blk b
          ]

-- The block is one of the tree that the file has for the import path.
abbrev pub IsBlockIn : Str → List Str → Fields → List Str → Fields → Type 0
IsBlockIn imp known file path blk =
    (root : Fields) × (child imp file ≡ some root) × IsBlockOf known [] root path blk

block_of-IsBlockIn :
    (imp : Str) (file : Fields) (path known : List Str) (blk : Fields)
    → block_of (child imp file) path known ≡ some blk
    → IsBlockIn imp known file path blk
block_of-IsBlockIn imp file path known blk h = go (child imp file) refl
  where
    go : (o : Option Fields) → child imp file ≡ o → IsBlockIn imp known file path blk
    go none e = absurd (ground arith)
    go (some root) e = (
      root,
      e,
      nearest-IsBlockOf known path [] root blk
          (rw (← resolve_target_block-nearest root path known) (ground arith)),
    )

-- A block that is delivered has a setting, and holds the settings of a node to which a start of the
-- target's path leads, in the tree that one of the two files has for the import path.
pub resolve_delivered-IsBlockIn :
    (t : Target) (local_imp mod_path : Str) (user project : Fields) (tgts : List Target)
    (blk : Fields)
    → resolve_delivered t local_imp mod_path user project tgts ≡ some blk
    → let imp = target_imp t local_imp in
      let known = known_nodes tgts local_imp imp in
      IsBlockIn imp known project (name_path t.name) blk
      ⊎ IsBlockIn imp known user (name_path t.name) blk
unfolding resolve_delivered
resolve_delivered-IsBlockIn t local_imp mod_path user project tgts blk h =
    go (block_of (child imp project) path known) refl
  where
    imp : Str
    imp = target_imp t local_imp

    path : List Str
    path = name_path t.name

    known : List Str
    known = known_nodes tgts local_imp imp

    go :
        (o : Option Fields)
        → block_of (child imp project) path known ≡ o
        → IsBlockIn imp known project path blk ⊎ IsBlockIn imp known user path blk
    go none e = inr (block_of-IsBlockIn imp user path known blk (ground arith))
    go (some b) e = inl (block_of-IsBlockIn imp project path known blk (ground arith))

-- When the module has a path and the import path of the target lies in it, what is delivered does
-- not depend on the user's file.
pub resolve_delivered-in_module :
    (t : Target) (local_imp mod_path : Str) (user user' project : Fields) (tgts : List Target)
    → mod_path ≢ []
    → imp_in_module (target_imp t local_imp) mod_path ≡ true
    → resolve_delivered t local_imp mod_path user project tgts
      ≡ resolve_delivered t local_imp mod_path user' project tgts
unfolding resolve_delivered
resolve_delivered-in_module t local_imp mod_path user user' project tgts h i = ground arith

append-cons : (xs : List Str) (x : Str) (ys : List Str) → xs ++ (x ∷ ys) ≡ (xs ++ (x ∷ [])) ++ ys
append-cons xs x ys = sym (append_assoc xs (x ∷ []) ys)

contains-prefixes :
    (path acc : List Str) (k : Str) (more : List Str)
    → contains (prefixes acc (path ++ (k ∷ more))) (join colon (acc ++ (path ++ (k ∷ [])))) ≡ true
unfolding prefixes contains
contains-prefixes [] acc k more = ground (arith, ==_refl (join colon (acc ++ (k ∷ []))))
contains-prefixes (c ∷ path) acc k more =
    rw (append-cons acc c (path ++ (k ∷ [])))
      (ground (arith, contains-prefixes path (acc ++ (c ∷ [])) k more))

contains-known_nodes :
    (bef aft : List Target) (u : Target) (local_imp : Str) (path : List Str) (k : Str)
    (more : List Str)
    → name_path u.name ≡ path ++ (k ∷ more)
    → contains
        (known_nodes (bef ++ (u ∷ aft)) local_imp (target_imp u local_imp))
        (join colon (path ++ (k ∷ [])))
      ≡ true
unfolding known_nodes
contains-known_nodes [] aft u local_imp path k more h =
    let hd = contains-prefixes path [] k more in
    let same = ==_refl (target_imp u local_imp) in
    let app =
      contains-append (prefixes [] (path ++ (k ∷ more)))
        (known_nodes aft local_imp (target_imp u local_imp)) (join colon (path ++ (k ∷ []))) in
    rw (same, h, app, hd) refl
contains-known_nodes (x ∷ bef) aft u local_imp path k more h =
    let ih = contains-known_nodes bef aft u local_imp path k more h in
    let app =
      contains-append (prefixes [] (name_path x.name))
        (known_nodes (bef ++ (u ∷ aft)) local_imp (target_imp u local_imp))
        (join colon (path ++ (k ∷ []))) in
    ground arith

abbrev NonEmpty : Str → Type 0
NonEmpty s = s ≢ []

non_empty-All : (ss : List Str) → All NonEmpty (non_empty ss)
unfolding non_empty
non_empty-All [] = tt
non_empty-All (s ∷ ss) = elim (Bool-cases (s == [])) [
  | inl e ↦ rw e (non_empty-All ss)
  | inr e ↦ rw e (ground arith, non_empty-All ss)
]

join-append_one :
    (c : Str) (path : List Str) (k : Str)
    → join colon ((c ∷ path) ++ (k ∷ [])) ≡ join colon (c ∷ path) ++ (colon ∷ k)
unfolding join
join-append_one c [] k = refl
join-append_one c (d ∷ path) k =
    rw (join-append_one d path k) (sym (append_assoc c (colon ∷ join colon (d ∷ path)) (colon ∷ k)))

join-cons-ne : (c : Str) (path : List Str) → c ≢ [] → join colon (c ∷ path) ≢ []
unfolding join
join-cons-ne c [] h = h
join-cons-ne [] (d ∷ path) h = absurd (h refl)
join-cons-ne (b ∷ c) (d ∷ path) h = λ e. cc

full_key-join :
    (path : List Str) (k : Str)
    → All NonEmpty path
    → full_key (join colon path) k ≡ join colon (path ++ (k ∷ []))
unfolding full_key
full_key-join [] k h = unfold join in ground arith
full_key-join (c ∷ path) k (hc, h) =
    let ne = join-cons-ne c path hc in rw (join-append_one c path k) (ground arith)

-- If the path of a target's name goes on behind a node, the settings of that node have nothing under
-- the next part of the path.
pub setting_keys-known_nodes :
    (bef aft : List Target) (u : Target) (local_imp : Str) (path : List Str) (node : Fields)
    (k : Str) (more : List Str)
    → name_path u.name ≡ path ++ (k ∷ more)
    → lookup_field k
        (setting_keys path node (known_nodes (bef ++ (u ∷ aft)) local_imp (target_imp u local_imp)))
      ≡ none
setting_keys-known_nodes bef aft u local_imp path node k more h =
    let ne =
      All-append_left NonEmpty path (k ∷ more)
        (subst (All NonEmpty) h (unfold name_path in non_empty-All (split colon u.name))) in
    rw
      (
        lookup_field-setting_keys k path
            (known_nodes (bef ++ (u ∷ aft)) local_imp (target_imp u local_imp)) node,
        full_key-join path k ne,
        contains-known_nodes bef aft u local_imp path k more h,
      )
      refl
