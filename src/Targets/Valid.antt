-- ===== src/Targets/Valid.antt =====
-- What a well-formed collection of targets is, for `Get` and `Add` of internal/parser/targets.go.
use gomake.Base.{
  Str, true, false, List, [], ◌∷◌, ◌++◌, ◌==◌, ◌||◌, str_eq, some, IsSortedBy, Distinct, contains,
  ◌≡◌, refl, arith, ◌∙◌, ap, sym, append_assoc, append-nil,
}
use gomake.Base.Dict
use gomake.Base.Dict.{Dict}
use gomake.Target.{Target}
use gomake.Targets.{Targets, new_targets, name_of, is_some, find_name, get, add_all}

abbrev pub names_in : List Target → List Str
names_in [] = []
names_in (t ∷ ts) = t.name ∷ names_in ts

-- No two targets share a name, the set holds the names of the list, and `sorted` tells the truth.
pub record IsValid (tgs : Targets) : Type 0 where
  pub distinct : Distinct (names_in tgs.list)
  pub unique_iff : (n : Str) → is_some (Dict.lookup n tgs.unique) ≡ contains (names_in tgs.list) n
  pub ordered : tgs.sorted ≡ true → IsSortedBy name_of tgs.list

pub new_targets-IsValid : IsValid new_targets
unfolding Dict.lookup contains
new_targets-IsValid = record { distinct = tt; unique_iff = λ n. refl; ordered = λ h. tt }

pub names_in-append : (xs ys : List Target) → names_in (xs ++ ys) ≡ names_in xs ++ names_in ys
names_in-append [] ys = refl
names_in-append (x ∷ xs) ys = ap (λ r. x.name ∷ r) (names_in-append xs ys)

is_some-find_name :
    (n : Str) (ts : List Target) → is_some (find_name n ts) ≡ contains (names_in ts) n
unfolding find_name contains
is_some-find_name n [] = refl
is_some-find_name n (t ∷ ts) = ground (arith, is_some-find_name n ts)

-- In a valid collection `Get` finds a target exactly for the names of the list.
pub is_some-get :
    (tgs : Targets) (n : Str) → IsValid tgs → is_some (get tgs n) ≡ contains (names_in tgs.list) n
unfolding get
is_some-get tgs n v = ground (arith, v.unique_iff n, is_some-find_name n tgs.list)

find_name-name : (n : Str) (ts : List Target) (t : Target) → find_name n ts ≡ some t → t.name ≡ n
unfolding find_name
find_name-name n [] t h = cc
find_name-name n (x ∷ ts) t h = ground (arith, find_name-name n ts t)

pub get-name : (tgs : Targets) (n : Str) (t : Target) → get tgs n ≡ some t → t.name ≡ n
unfolding get
get-name tgs n t h = ground (arith, find_name-name n tgs.list t)

abbrev with_target : Targets → Target → Targets
with_target tgs t = record tgs {
  unique = Dict.insert t.name tt tgs.unique;
  list = tgs.list ++ (t ∷ []);
  sorted = false;
}

pub contains-names_in-snoc :
    (xs : List Target) (t : Target) (n : Str)
    → contains (names_in (xs ++ (t ∷ []))) n ≡ (contains (names_in xs) n || n == t.name)
unfolding contains
contains-names_in-snoc [] t n = ground arith
contains-names_in-snoc (x ∷ xs) t n = ground (arith, contains-names_in-snoc xs t n)

pub Distinct-snoc :
    (xs : List Target) (t : Target)
    → contains (names_in xs) t.name ≡ false
    → Distinct (names_in xs)
    → Distinct (names_in (xs ++ (t ∷ [])))
unfolding contains
Distinct-snoc [] t h d = (refl, tt)
Distinct-snoc (x ∷ xs) t h d =
    (ground (arith, contains-names_in-snoc xs t x.name), Distinct-snoc xs t (ground arith) d.1)

with_target-IsValid :
    (tgs : Targets) (t : Target)
    → IsValid tgs
    → contains (names_in tgs.list) t.name ≡ false
    → IsValid (with_target tgs t)
with_target-IsValid tgs t v h = record {
  distinct = Distinct-snoc tgs.list t h v.distinct;
  unique_iff = λ n. ground (
    arith,
    v.unique_iff n,
    Dict.lookup-insert n t.name tt tgs.unique,
    contains-names_in-snoc tgs.list t n,
  );
  ordered = λ e. cc;
}

-- The names of a batch, each new behind those before it.
abbrev pub Fresh : List Target → List Target → Type 0
Fresh seen [] = Unit
Fresh seen (t ∷ ts) = (contains (names_in seen) t.name ≡ false) × Fresh (seen ++ (t ∷ [])) ts

pub add_all-IsValid :
    (tgs : Targets) (ts : List Target) → IsValid tgs → Fresh tgs.list ts → IsValid (add_all tgs ts)
unfolding add_all
add_all-IsValid tgs [] v f = v
add_all-IsValid tgs (t ∷ ts) v f =
    add_all-IsValid (with_target tgs t) ts (with_target-IsValid tgs t v f.0) f.1

pub list-add_all : (tgs : Targets) (ts : List Target) → (add_all tgs ts).list ≡ tgs.list ++ ts
unfolding add_all
list-add_all tgs [] = sym (append-nil _)
list-add_all tgs (t ∷ ts) = list-add_all (with_target tgs t) ts ∙ append_assoc tgs.list (t ∷ []) ts
