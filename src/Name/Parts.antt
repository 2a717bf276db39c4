-- ===== src/Name/Parts.antt =====
-- The parts of a target's name, as the parser joins them and the configuration takes them apart.
use gomake.Base.{
  suc, ℕ, Str, true, List, [], ◌∷◌, ◌++◌, ◌==◌, str_eq, nat_eq, not, if◌then◌else◌, leb, codes,
  length, map, ◌≡◌, ◌≢◌, refl, arith, ap, sym, ◌∙◌, All, append_assoc, append-nil, join, split-join,
  Lacks, Bool-cases, inl, inr, ==_iff,
}
use gomake.Name.{to_kebab_case, crumb_names, target_name, root_crumb, colon_text}
use gomake.ConfigFile.{name_path, non_empty, colon}

abbrev pub part_of : (Str → Str) → Str → Str
part_of lower c = lower (to_kebab_case c)

abbrev last_part : Str → List Str
last_part func_name = if func_name == codes "Default" then [] else to_kebab_case func_name ∷ []

-- The namespace of the package, the types from the root down, and the method, but for `Default`.
abbrev pub parts : (Str → Str) → Str → List Str → Str → List Str
parts lower pkg_ns crumbs func_name =
    (if pkg_ns == [] then [] else pkg_ns ∷ [])
    ++ (map (part_of lower) crumbs ++ last_part func_name)

abbrev pub NotRoot : Str → Type 0
NotRoot c = c ≢ root_crumb

crumb_names-join :
    (lower : Str → Str) (c : Str) (cs : List Str)
    → All NotRoot (c ∷ cs)
    → crumb_names lower (c ∷ cs) ≡ join colon (map (part_of lower) (c ∷ cs))
unfolding crumb_names join
crumb_names-join lower c [] (h, hs) = elim (Bool-cases (c == root_crumb)) [
  | inl e ↦ absurd (h ((==_iff c root_crumb).0 e))
  | inr e ↦ rw e (append-nil (part_of lower c))
]
crumb_names-join lower c (d ∷ cs) (h, hs) = elim (Bool-cases (c == root_crumb)) [
  | inl e ↦ absurd (h ((==_iff c root_crumb).0 e))
  | inr e ↦ rw (e, crumb_names-join lower d cs hs) refl
]

join-append_one :
    (c : Str) (cs : List Str) (k : Str)
    → join colon ((c ∷ cs) ++ (k ∷ [])) ≡ join colon (c ∷ cs) ++ (colon ∷ k)
unfolding join
join-append_one c [] k = refl
join-append_one c (d ∷ cs) k =
    rw (join-append_one d cs k) (sym (append_assoc c (colon ∷ join colon (d ∷ cs)) (colon ∷ k)))

method_name :
    (c : Str) (cs : List Str) (func_name : Str)
    → join colon (c ∷ cs)
        ++ (if not (func_name == codes "Default")
            then colon_text ++ to_kebab_case func_name
            else [])
      ≡ join colon ((c ∷ cs) ++ last_part func_name)
method_name c cs func_name = elim (Bool-cases (func_name == codes "Default")) [
  | inl e ↦ rw e (append-nil (join colon (c ∷ cs)) ∙ ap (join colon) (sym (append-nil (c ∷ cs))))
  | inr e ↦ rw e (sym (join-append_one c cs (to_kebab_case func_name)))
]

root_is : (root_crumb == root_crumb) ≡ true
unfolding str_eq nat_eq
root_is = refl

crumb_names-root :
    (lower : Str → Str) (c : Str) (cs : List Str)
    → crumb_names lower (root_crumb ∷ c ∷ cs) ≡ crumb_names lower (c ∷ cs)
unfolding crumb_names
crumb_names-root lower c cs = rw root_is refl

two_le : (n : ℕ) → leb 2 (suc (suc n)) ≡ true
two_le n = ground arith

abbrev namespace_part : Str → Str
namespace_part pkg_ns = if not (pkg_ns == []) then pkg_ns ++ colon_text else []

abbrev method_part : Str → Str
method_part func_name =
    if not (func_name == codes "Default") then colon_text ++ to_kebab_case func_name else []

target_name-opened :
    (lower : Str → Str) (pkg_ns c : Str) (cs : List Str) (func_name : Str)
    → target_name lower pkg_ns (root_crumb ∷ c ∷ cs) func_name
      ≡ namespace_part pkg_ns ++ (crumb_names lower (root_crumb ∷ c ∷ cs) ++ method_part func_name)
unfolding target_name
target_name-opened lower pkg_ns c cs func_name = rw (target_name, two_le (length cs)) refl

namespace_name :
    (pkg_ns p : Str) (ps : List Str)
    → namespace_part pkg_ns ++ join colon (p ∷ ps)
      ≡ join colon ((if pkg_ns == [] then [] else pkg_ns ∷ []) ++ (p ∷ ps))
unfolding join
namespace_name pkg_ns p ps = elim (Bool-cases (pkg_ns == [])) [
  | inl e ↦ rw e refl
  | inr e ↦ rw e (append_assoc pkg_ns colon_text (join colon (p ∷ ps)))
]

-- The name of a method of a namespace, whose breadcrumbs go from the root over one type at least,
-- is its parts, joined by colons.
pub target_name-join :
    (lower : Str → Str) (pkg_ns c : Str) (cs : List Str) (func_name : Str)
    → All NotRoot (c ∷ cs)
    → target_name lower pkg_ns (root_crumb ∷ c ∷ cs) func_name
      ≡ join colon (parts lower pkg_ns (c ∷ cs) func_name)
target_name-join lower pkg_ns c cs func_name h =
    target_name-opened lower pkg_ns c cs func_name
    ∙ ap (λ x. namespace_part pkg_ns ++ (x ++ method_part func_name))
        (crumb_names-root lower c cs ∙ crumb_names-join lower c cs h)
    ∙ ap (λ x. namespace_part pkg_ns ++ x)
        (method_name (part_of lower c) (map (part_of lower) cs) func_name)
    ∙ namespace_name pkg_ns (part_of lower c) (map (part_of lower) cs ++ last_part func_name)

non_empty-All_ne : (ss : List Str) → All (λ s. s ≢ []) ss → non_empty ss ≡ ss
unfolding non_empty
non_empty-All_ne [] h = refl
non_empty-All_ne (s ∷ ss) (h, hs) = ground (arith, non_empty-All_ne ss)

-- The configuration takes a name apart into the parts that it was joined from, when no part is empty
-- or has a colon in it.
pub name_path-join :
    (p : Str) (ps : List Str)
    → All (Lacks colon) (p ∷ ps)
    → All (λ s. s ≢ []) (p ∷ ps)
    → name_path (join colon (p ∷ ps)) ≡ p ∷ ps
unfolding name_path
name_path-join p ps l h = rw (name_path, split-join colon p ps l) (non_empty-All_ne (p ∷ ps) h)
