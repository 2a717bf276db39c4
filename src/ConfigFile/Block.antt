-- ===== src/ConfigFile/Block.antt =====
-- The block that `resolveTargetBlock` picks in one file.
use gomake.Base.{
  Str, List, [], ◌∷◌, ◌++◌, ◌≡◌, refl, arith, Option, none, some, str_eq, if◌then◌else◌, Bool-cases,
  contains, join, inl, inr,
}
use gomake.Value.{Fields, end, field, lookup_field, child, is_empty}
use gomake.ConfigFile.{
  Level, descend, first_block, resolve_target_block, setting_keys, drop_known, full_key, colon,
}

-- The keys of one node that are settings, if there are some.
abbrev pub own_block : List Str → List Str → Fields → Option Fields
own_block known prefix node =
    if is_empty (setting_keys prefix node known)
    then none
    else some (setting_keys prefix node known)

abbrev pub or_else : Option Fields → Option Fields → Option Fields
or_else none o = o
or_else (some b) o = some b

-- The block of the deepest node that has one, on the part of the path that the tree holds.
unfoldable pub nearest : List Str → List Str → Fields → List Str → Option Fields
nearest known prefix node [] = own_block known prefix node
nearest known prefix node (c ∷ path) = elim (child c node) [
  | none ↦ own_block known prefix node
  | some sub ↦ or_else (nearest known (prefix ++ (c ∷ [])) sub path) (own_block known prefix node)
]

first_block-cons :
    (known : List Str) (prefix : List Str) (node : Fields) (ls : List Level)
    → first_block known (record { prefix = prefix; node = node } ∷ ls)
      ≡ or_else (own_block known prefix node) (first_block known ls)
unfolding first_block
first_block-cons known prefix node ls =
    elim (Bool-cases (is_empty (setting_keys prefix node known))) [
      | inl e ↦ rw e refl
      | inr e ↦ rw e refl
    ]

or_else_assoc : (a b c : Option Fields) → or_else a (or_else b c) ≡ or_else (or_else a b) c
or_else_assoc none b c = refl
or_else_assoc (some a) b c = refl

first_block-descend :
    (known : List Str) (path : List Str) (chain : List Level) (prefix : List Str) (node : Fields)
    → first_block known (descend chain prefix node path)
      ≡ or_else (nearest known prefix node path) (first_block known chain)
unfolding descend nearest
first_block-descend known [] chain prefix node = first_block-cons known prefix node chain
first_block-descend known (c ∷ path) chain prefix node = go (child c node) refl (λ sub.
    first_block-descend known path (record { prefix = prefix; node = node } ∷ chain)
      (prefix ++ (c ∷ [])) sub)
  where
    go :
        (o : Option Fields)
        → child c node ≡ o
        → ((sub : Fields)
            → first_block known (
                descend
                  (record { prefix = prefix; node = node } ∷ chain)
                  (prefix ++ (c ∷ []))
                  sub
                  path)
              ≡ or_else
                  (nearest known (prefix ++ (c ∷ [])) sub path)
                  (first_block known (record { prefix = prefix; node = node } ∷ chain)))
        → first_block known (descend chain prefix node (c ∷ path))
          ≡ or_else (nearest known prefix node (c ∷ path)) (first_block known chain)
    go none e ih = rw (descend, nearest, e) (first_block-cons known prefix node chain)
    go (some sub) e ih =
        rw (descend, nearest, e, ih sub, first_block-cons known prefix node chain)
          (or_else_assoc (nearest known (prefix ++ (c ∷ [])) sub path) (own_block known prefix node)
            (first_block known chain))

or_else-none : (o : Option Fields) → or_else o none ≡ o
or_else-none none = refl
or_else-none (some b) = refl

-- The block that the two loops pick is that of the deepest node with settings, as `nearest` finds it
-- by recursion on the path.
pub resolve_target_block-nearest :
    (root : Fields) (path known : List Str)
    → resolve_target_block root path known ≡ nearest known [] root path
unfolding resolve_target_block first_block
resolve_target_block-nearest root path known =
    rw (first_block-descend known path [] [] root) (or_else-none (nearest known [] root path))

lookup_field-drop_known :
    (k base : Str) (known : List Str) (node : Fields)
    → lookup_field k (drop_known base known node)
      ≡ (if contains known (full_key base k) then none else lookup_field k node)
unfolding drop_known lookup_field
lookup_field-drop_known k base known end = ground arith
lookup_field-drop_known k base known (field j v fs) =
    ground (arith, lookup_field-drop_known k base known fs)

-- The settings of a node are its entries less the keys of known nodes beneath it.
pub lookup_field-setting_keys :
    (k : Str) (prefix known : List Str) (node : Fields)
    → lookup_field k (setting_keys prefix node known)
      ≡ (if contains known (full_key (join colon prefix) k) then none else lookup_field k node)
unfolding setting_keys
lookup_field-setting_keys k prefix known node =
    lookup_field-drop_known k (join colon prefix) known node
