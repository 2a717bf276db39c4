-- ===== src/Base/Path.antt =====
-- The functions of Go's `path/filepath` package that the program calls, on Unix.
use Prim.Native.Nat.{ℕ, ◌+◌, ◌≤◌, ◌<◌}
use mathlib.Core.Path.{◌≡◌, refl, ap, ◌∙◌, sym, subst}
use mathlib.Core.Logic.{◌≢◌}
use mathlib.Core.Bool.{Bool, true, false, ◌||◌, ◌&&◌, not}
use mathlib.Core.List.{
  List, [], ◌∷◌, ◌++◌, reverse, reverse-append, reverse-reverse, append-nil, append_assoc,
}
use native.Mathlib.Omega.{arith}
use gomake.Base.Equality.{Str, ◌==◌, if◌then◌else◌, nat_eq, str_eq}
use gomake.Base.Lists.{All, length, length-append}
use gomake.Base.Text.{Lacks, split, join, split-append, split-join, codes}

abbrev pub slash : ℕ
slash = b'/'

abbrev pub dot_path : Str
dot_path = codes "."

abbrev pub dot_dot : Str
dot_dot = codes ".."

-- filepath.IsAbs
unfoldable pub is_abs : Str → Bool
is_abs [] = false
is_abs (c ∷ s) = c == slash

-- A `..` behind the elements of a path, the last one first.
unfoldable pub step_up : Bool → List Str → List Str
step_up rooted [] = if rooted then [] else dot_dot ∷ []
step_up rooted (e ∷ es) = if e == dot_dot then dot_dot ∷ e ∷ es else es

-- The elements that filepath.Clean keeps, in reverse.
unfoldable pub clean_elements : Bool → List Str → List Str → List Str
clean_elements rooted es [] = es
clean_elements rooted es (p ∷ ps) =
    if p == [] || p == dot_path
    then clean_elements rooted es ps
    else if p == dot_dot
    then clean_elements rooted (step_up rooted es) ps
    else clean_elements rooted (p ∷ es) ps

-- The elements as a path.
unfoldable pub render : Bool → List Str → Str
render true es = slash ∷ join slash es
render false [] = dot_path
render false (e ∷ es) = join slash (e ∷ es)

-- filepath.Clean
unfoldable pub clean : Str → Str
unfolding is_abs
clean s = render (is_abs s) (reverse (clean_elements (is_abs s) [] (split slash s)))

-- filepath.Join, of two elements.
unfoldable pub path_join : Str → Str → Str
path_join a b = if a == [] then if b == [] then [] else clean b else clean (a ++ (slash ∷ b))

-- A path up to its last slash.
unfoldable pub dir_part : Str → Str
dir_part [] = []
dir_part (c ∷ s) = let rest = dir_part s in if rest == [] && not (c == slash) then [] else c ∷ rest

-- filepath.Dir
unfoldable pub dir : Str → Str
unfolding clean
dir s = clean (dir_part s)

pub is_abs-clean : (s : Str) → is_abs s ≡ true → is_abs (clean s) ≡ true
unfolding clean render is_abs
is_abs-clean s h = ground (arith, h)

-- A path joined to an absolute path is absolute.
pub is_abs-path_join : (a b : Str) → is_abs a ≡ true → is_abs (path_join a b) ≡ true
unfolding path_join is_abs
is_abs-path_join [] b h = absurd (cc)
is_abs-path_join (c ∷ a) b h = ground (arith, is_abs-clean (c ∷ (a ++ (slash ∷ b))) h)

-- An element that filepath.Clean keeps wherever it stands.
abbrev pub IsElement : Str → Type 0
IsElement e = (e ≢ []) × ((e ≢ dot_path) × ((e ≢ dot_dot) × Lacks slash e))

-- Every element behind a slash.
concat : List Str → Str
concat [] = []
concat (e ∷ es) = slash ∷ (e ++ concat es)

-- An absolute path that filepath.Clean leaves as it is, by its elements from the root.
abbrev pub rooted_path : List Str → Str
rooted_path es = slash ∷ join slash es

concat-eq : (e : Str) (es : List Str) → concat (e ∷ es) ≡ rooted_path (e ∷ es)
unfolding concat join
concat-eq e [] = ap (λ r. slash ∷ r) (append-nil e)
concat-eq e (f ∷ es) = ap (λ r. slash ∷ (e ++ r)) (concat-eq f es)

concat-append : (es : List Str) (c : Str) → concat (es ++ (c ∷ [])) ≡ concat es ++ (slash ∷ c)
unfolding concat
concat-append [] c = ap (λ r. slash ∷ r) (append-nil c)
concat-append (e ∷ es) c =
    ap (λ r. slash ∷ r)
      (ap (λ r. e ++ r) (concat-append es c) ∙ sym (append_assoc e (concat es) (slash ∷ c)))

dir_part-Lacks : (c : Str) → Lacks slash c → dir_part c ≡ []
unfolding dir_part
dir_part-Lacks [] h = refl
dir_part-Lacks (x ∷ c) h = ground (arith, dir_part-Lacks c h.1)

pub append-ne-nil : (s : Str) (x : ℕ) (t : Str) → s ++ (x ∷ t) ≢ []
append-ne-nil [] x t h = cc
append-ne-nil (y ∷ s) x t h = cc

dir_part-append : (s c : Str) → Lacks slash c → dir_part (s ++ (slash ∷ c)) ≡ s ++ (slash ∷ [])
unfolding dir_part
dir_part-append [] c h = ground (arith, dir_part-Lacks c h)
dir_part-append (x ∷ s) c h = ground (arith, dir_part-append s c h, append-ne-nil s slash [])

-- What stands behind the first slash of `concat es` and a slash.
behind : List Str → Str
behind [] = []
behind (e ∷ es) = e ++ (slash ∷ behind es)

concat-behind : (es : List Str) → concat es ++ (slash ∷ []) ≡ slash ∷ behind es
unfolding concat behind
concat-behind [] = refl
concat-behind (e ∷ es) =
    ap (λ r. slash ∷ r)
      (append_assoc e (concat es) (slash ∷ []) ∙ ap (λ r. e ++ r) (concat-behind es))

split-behind : (es : List Str) → All IsElement es → split slash (behind es) ≡ es ++ ([] ∷ [])
unfolding behind split
split-behind [] h = refl
split-behind (e ∷ es) h =
    split-append slash e (behind es) h.0.1.1.1 ∙ ap (λ r. e ∷ r) (split-behind es h.1)

clean_elements-append :
    (acc es : List Str)
    → All IsElement es
    → clean_elements true acc (es ++ ([] ∷ [])) ≡ reverse es ++ acc
unfolding clean_elements
clean_elements-append acc [] h = ground arith
clean_elements-append acc (e ∷ es) h = ground (
  arith,
  clean_elements-append (e ∷ acc) es h.1,
  reverse-append (e ∷ []) es,
  append_assoc (reverse es) (e ∷ []) acc,
)

clean-slash :
    (s : Str) → clean (slash ∷ s) ≡ rooted_path (reverse (clean_elements true [] (split slash s)))
unfolding clean is_abs clean_elements render split nat_eq str_eq
clean-slash s = refl

clean-concat :
    (es : List Str) → All IsElement es → clean (concat es ++ (slash ∷ [])) ≡ rooted_path es
clean-concat es h =
    rw
      (
        concat-behind es,
        clean-slash (behind es),
        split-behind es h,
        clean_elements-append [] es h,
        append-nil (reverse es),
        reverse-reverse es,
      )
      refl

rooted_path-append :
    (es : List Str) (c : Str) → rooted_path (es ++ (c ∷ [])) ≡ concat es ++ (slash ∷ c)
rooted_path-append [] c = sym (concat-eq c []) ∙ concat-append [] c
rooted_path-append (e ∷ es) c = sym (concat-eq e (es ++ (c ∷ []))) ∙ concat-append (e ∷ es) c

-- filepath.Dir takes the last element off.
pub dir-append :
    (es : List Str) (c : Str)
    → All IsElement es
    → Lacks slash c
    → dir (rooted_path (es ++ (c ∷ []))) ≡ rooted_path es
unfolding dir
dir-append es c h l =
    ap (λ p. clean (dir_part p)) (rooted_path-append es c)
    ∙ ap clean (dir_part-append (concat es) c l)
    ∙ clean-concat es h

pub dir-root : dir (rooted_path []) ≡ rooted_path []
unfolding dir dir_part clean is_abs clean_elements render split nat_eq str_eq join
dir-root = refl

length-concat : (es : List Str) → length es ≤ length (concat es)
unfolding concat
length-concat [] = omega arith
length-concat (e ∷ es) = omega (arith, length-append e (concat es), length-concat es)

pub length-rooted_path : (es : List Str) → length es ≤ length (rooted_path es)
length-rooted_path [] = omega arith
length-rooted_path (e ∷ es) =
    subst (λ p. length (e ∷ es) ≤ length p) (concat-eq e es) (length-concat (e ∷ es))

length-rooted_path_le : (es : List Str) → length (rooted_path es) ≤ length (concat es) + 1
unfolding join
length-rooted_path_le [] = omega arith
length-rooted_path_le (e ∷ es) =
    subst (λ p. length p ≤ length (concat (e ∷ es)) + 1) (concat-eq e es) (omega arith)

-- It takes a byte at least off a path with an element.
pub dir-append_lt :
    (es : List Str) (c : Str)
    → All IsElement es
    → IsElement c
    → length (dir (rooted_path (es ++ (c ∷ [])))) < length (rooted_path (es ++ (c ∷ [])))
dir-append_lt es [] h k = absurd (k.0 refl)
dir-append_lt es (x ∷ c) h k = omega (
  arith,
  ap length (dir-append es (x ∷ c) h k.1.1.1),
  ap length (rooted_path-append es (x ∷ c)),
  length-append (concat es) (slash ∷ x ∷ c),
  length-rooted_path_le es,
)

clean_elements-plain :
    (acc es : List Str) → All IsElement es → clean_elements true acc es ≡ reverse es ++ acc
unfolding clean_elements
clean_elements-plain acc [] h = refl
clean_elements-plain acc (e ∷ es) h = ground (
  arith,
  clean_elements-plain (e ∷ acc) es h.1,
  reverse-append (e ∷ []) es,
  append_assoc (reverse es) (e ∷ []) acc,
)

pub Lacks-All : (es : List Str) → All IsElement es → All (Lacks slash) es
Lacks-All [] h = tt
Lacks-All (e ∷ es) h = (h.0.1.1.1, Lacks-All es h.1)

clean-root : clean (rooted_path []) ≡ rooted_path []
unfolding clean is_abs clean_elements render split nat_eq str_eq join
clean-root = refl

-- It is left as it is.
pub clean-rooted_path : (es : List Str) → All IsElement es → clean (rooted_path es) ≡ rooted_path es
unfolding join
clean-rooted_path [] h = clean-root
clean-rooted_path (e ∷ es) h =
    rw
      (
        clean-slash (join slash (e ∷ es)),
        split-join slash e es (Lacks-All (e ∷ es) h),
        clean_elements-plain [] (e ∷ es) h,
        append-nil (reverse (e ∷ es)),
        reverse-reverse (e ∷ es),
      )
      refl

unfoldable pub drop_slashes : Str → Str
drop_slashes [] = []
drop_slashes (c ∷ s) = if c == slash then drop_slashes s else c ∷ s

unfoldable pub last_part : Str → List Str → Str
last_part d [] = d
last_part d (p ∷ ps) = last_part p ps

-- filepath.Base
unfoldable pub path_base : Str → Str
unfolding drop_slashes last_part
path_base s =
    if s == []
    then dot_path
    else let t = reverse (drop_slashes (reverse s)) in
      if t == [] then slash ∷ [] else last_part [] (split slash t)

base_of : path_base (codes "/a/bc/") ≡ codes "bc"
unfolding path_base nat_eq str_eq split
base_of = refl
