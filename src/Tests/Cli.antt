-- ===== src/Tests/Cli.antt =====
-- A command line that sets two flags.
use kubeip.Base.{
  In, ℕ, String, Bool, false, none, some, List, [], ◌∷◌, ◌≡◌, refl, sym, ◌∙◌, ap, inl, inr, arith,
  ◌==◌, if◌then◌else◌, subst,
}
use kubeip.Config.{CliContext, new_config}
use kubeip.Cli.{
  FlagValue, string_flag, path_flag, bool_flag, duration_flag, int_flag, string_slice_flag, Flag,
  run_flags, warn_level, error_level, level_of,
}
use kubeip.Cli.Laws.{Settings, get_or, IsRead, configured, new_config_lem}

abbrev settings : Settings
settings = record {
  strings = λ name. if name == "region" then some "us-east-1" else none;
  bools = λ name. if name == "release-on-exit" then some false else none;
  numbers = λ name. none;
  slices = λ name. none;
}

abbrev text_default : FlagValue → String
text_default (string_flag d) = d
text_default (path_flag d) = d
text_default (bool_flag d) = ""
text_default (duration_flag d) = ""
text_default (int_flag d) = ""
text_default (string_slice_flag d) = ""

abbrev bool_default : FlagValue → Bool
bool_default (string_flag d) = false
bool_default (path_flag d) = false
bool_default (bool_flag d) = d
bool_default (duration_flag d) = false
bool_default (int_flag d) = false
bool_default (string_slice_flag d) = false

abbrev number_default : FlagValue → ℕ
number_default (string_flag d) = 0
number_default (path_flag d) = 0
number_default (bool_flag d) = 0
number_default (duration_flag d) = d
number_default (int_flag d) = d
number_default (string_slice_flag d) = 0

abbrev slice_default : FlagValue → List String
slice_default (string_flag d) = []
slice_default (path_flag d) = []
slice_default (bool_flag d) = []
slice_default (duration_flag d) = []
slice_default (int_flag d) = []
slice_default (string_slice_flag d) = d

-- The default of the flag with the name.
default_of : {A : Type 0} → (FlagValue → A) → A → List Flag → String → A
default_of of zero_value [] name = zero_value
default_of of zero_value (f ∷ fs) name =
    let later = default_of of zero_value fs name in if f.name == name then of f.value else later

abbrev context : CliContext
context = record {
  string = λ name. get_or (default_of text_default "" run_flags name) (settings.strings name);
  bool = λ name. get_or (default_of bool_default false run_flags name) (settings.bools name);
  duration = λ name. get_or (default_of number_default 0 run_flags name) (settings.numbers name);
  int = λ name. get_or (default_of number_default 0 run_flags name) (settings.numbers name);
  string_slice = λ name. get_or (default_of slice_default [] run_flags name) (settings.slices name);
}

-- Every flag of the list satisfies it.
abbrev Each : (Flag → Type 0) → List Flag → Type 0
Each P [] = Unit
Each P (f ∷ fs) = P f × Each P fs

each_In : (P : Flag → Type 0) (fs : List Flag) (f : Flag) → Each P fs → In f fs → P f
each_In P [] f h there = elim there [ ]
each_In P (g ∷ fs) f h (inl same) = subst P (sym same) h.0
each_In P (g ∷ fs) f h (inr later) = each_In P fs f h.1 later

abbrev Finds : {A : Type 0} → (FlagValue → A) → A → Flag → Type 0
Finds of zero_value f = default_of of zero_value run_flags f.name ≡ of f.value

text_found : Each (Finds text_default "") run_flags
unfolding default_of
text_found = ground arith

bool_found : Each (Finds bool_default false) run_flags
unfolding default_of
bool_found = ground arith

number_found : Each (Finds number_default 0) run_flags
unfolding default_of
number_found = ground arith

slice_found : Each (Finds slice_default []) run_flags
unfolding default_of
slice_found = ground arith

context_reads : IsRead run_flags settings context
context_reads = record {
  string_of = λ f d there k. elim k [
    | inl e ↦
        ap (λ x. get_or x (settings.strings f.name))
          (each_In (Finds text_default "") run_flags f text_found there ∙ ap text_default e)
    | inr e ↦
        ap (λ x. get_or x (settings.strings f.name))
          (each_In (Finds text_default "") run_flags f text_found there ∙ ap text_default e)
  ];
  bool_of = λ f d there e.
      ap (λ x. get_or x (settings.bools f.name))
        (each_In (Finds bool_default false) run_flags f bool_found there ∙ ap bool_default e);
  duration_of = λ f d there e.
      ap (λ x. get_or x (settings.numbers f.name))
        (each_In (Finds number_default 0) run_flags f number_found there ∙ ap number_default e);
  int_of = λ f d there e.
      ap (λ x. get_or x (settings.numbers f.name))
        (each_In (Finds number_default 0) run_flags f number_found there ∙ ap number_default e);
  slice_of = λ f d there e.
      ap (λ x. get_or x (settings.slices f.name))
        (each_In (Finds slice_default []) run_flags f slice_found there ∙ ap slice_default e);
}

new_config_lem_example : new_config context ≡ configured settings
new_config_lem_example = new_config_lem settings context context_reads

level_names : (level_of "ERROR" ≡ error_level) × (level_of "Error" ≡ warn_level)
unfolding level_of
level_names = (refl, refl)
