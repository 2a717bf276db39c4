-- ===== src/Target.antt =====
-- The target record of internal/mkf/target.go and its method of internal/mkf/target_methods.go.
use gomake.Base.{ℕ, Str, Bool, false, List, [], ◌∷◌, ◌==◌, nat_eq}

-- A `targetFn` value, as the handle under which the runtime calls it.
abbrev pub TargetFn : Type 0
TargetFn = ℕ

-- The no-op function that `NewTarget` sets.
abbrev pub nop : TargetFn
nop = 0

pub record Target : Type 0 where
  pub imp_spec : Str
  pub imp_path : Str
  pub pkg_name : Str
  pub pkg_ns : Str
  pub breadcrumbs : List Str
  pub receiver : Str
  pub func_name : Str
  pub doc : Str
  pub run : TargetFn
  pub default : Bool
  pub hidden : Bool
  pub name : Str
  pub synopsis : Str
  pub var_name : Str
  pub code_ref : Str
  pub def_ref : Str

-- `NewTarget`
abbrev pub new_target : Target
new_target = record {
  imp_spec = [];
  imp_path = [];
  pkg_name = [];
  pkg_ns = [];
  breadcrumbs = [];
  receiver = [];
  func_name = [];
  doc = [];
  run = nop;
  default = false;
  hidden = false;
  name = [];
  synopsis = [];
  var_name = [];
  code_ref = [];
  def_ref = [];
}

abbrev pub starts_core : Str → Bool
starts_core [] = false
starts_core (c ∷ s) = c == b':'

-- `Target.IsCore`
unfoldable pub is_core : Target → Bool
is_core t = starts_core t.name
