-- ===== src/Cli/Laws.antt =====
-- What the configuration holds that the flags of the command line give.
use kubeip.Base.{
  In, ℕ, zero, suc, String, Bool, true, false, Option, none, some, List, [], ◌∷◌, ◌≡◌, refl, ◌⊎◌,
  inl, inr, arith,
}
use kubeip.Config.{Config, CliContext, new_config}
use kubeip.Cli.{
  string_flag, path_flag, bool_flag, duration_flag, int_flag, string_slice_flag, Flag, run_flags,
}

-- What the command line or the environment sets of the flags, by name.
pub record Settings : Type 0 where
  pub strings : String → Option String
  pub bools : String → Option Bool
  pub numbers : String → Option ℕ
  pub slices : String → Option (List String)

abbrev pub get_or : {A : Type 0} → A → Option A → A
get_or d none = d
get_or d (some a) = a

-- What is relied on of the library: a declared flag reads as what is set of it, or as its default. A
-- path is read as a text.
pub record IsRead (flags : List Flag) (s : Settings) (c : CliContext) : Type 0 where
  pub string_of :
      (f : Flag) (d : String)
      → In f flags
      → (f.value ≡ string_flag d) ⊎ (f.value ≡ path_flag d)
      → c.string f.name ≡ get_or d (s.strings f.name)
  pub bool_of :
      (f : Flag) (d : Bool)
      → In f flags
      → f.value ≡ bool_flag d
      → c.bool f.name ≡ get_or d (s.bools f.name)
  pub duration_of :
      (f : Flag) (d : ℕ)
      → In f flags
      → f.value ≡ duration_flag d
      → c.duration f.name ≡ get_or d (s.numbers f.name)
  pub int_of :
      (f : Flag) (d : ℕ)
      → In f flags
      → f.value ≡ int_flag d
      → c.int f.name ≡ get_or d (s.numbers f.name)
  pub slice_of :
      (f : Flag) (d : List String)
      → In f flags
      → f.value ≡ string_slice_flag d
      → c.string_slice f.name ≡ get_or d (s.slices f.name)

-- The element at an index.
abbrev at : {A : Type 0} → ℕ → List A → Option A
at n [] = none
at zero (x ∷ xs) = some x
at (suc n) (x ∷ xs) = at n xs

at-In : {A : Type 0} (n : ℕ) (xs : List A) (x : A) → at n xs ≡ some x → In x xs
at-In zero [] x h = absurd (ground arith)
at-In (suc n) [] x h = absurd (ground arith)
at-In zero (y ∷ xs) x h = inl (ground arith)
at-In (suc n) (y ∷ xs) x h = inr (at-In n xs x h)

-- The configuration that the settings mean: sixty attempts, a minute apart, a lease of five seconds in
-- the namespace "default" and the release on exit, where nothing else is set.
abbrev pub configured : Settings → Config
configured s = record {
  kube_config_path = get_or "" (s.strings "kubeconfig");
  node_name = get_or "" (s.strings "node-name");
  project = get_or "" (s.strings "project");
  region = get_or "" (s.strings "region");
  ipv6 = get_or false (s.bools "ipv6");
  develop_mode = get_or false (s.bools "develop-mode");
  filter = get_or [] (s.slices "filter");
  order_by = get_or "" (s.strings "order-by");
  retry_interval = get_or 60000000000 (s.numbers "retry-interval");
  retry_attempts = get_or 60 (s.numbers "retry-attempts");
  release_on_exit = get_or true (s.bools "release-on-exit");
  lease_duration = get_or 5 (s.numbers "lease-duration");
  lease_namespace = get_or "default" (s.strings "lease-namespace");
  taint_key = get_or "" (s.strings "taint-key");
}

module _ (s : Settings) (c : CliContext) (reads : IsRead run_flags s c) where
  text_at :
      (n : ℕ) (f : Flag) (d : String)
      → at n run_flags ≡ some f
      → (f.value ≡ string_flag d) ⊎ (f.value ≡ path_flag d)
      → c.string f.name ≡ get_or d (s.strings f.name)
  text_at n f d e k = reads.string_of f d (at-In n run_flags f e) k

  bool_at :
      (n : ℕ) (f : Flag) (d : Bool)
      → at n run_flags ≡ some f
      → f.value ≡ bool_flag d
      → c.bool f.name ≡ get_or d (s.bools f.name)
  bool_at n f d e k = reads.bool_of f d (at-In n run_flags f e) k

  -- Every field of the configuration is read from a flag that is declared with the field's type, and is
  -- what is set of that flag, or else the default.
  pub new_config_lem : new_config c ≡ configured s
  unfolding new_config
  new_config_lem =
      rw
        (
          text_at 4 _ "" refl (inr refl),
          text_at 0 _ "" refl (inl refl),
          text_at 1 _ "" refl (inl refl),
          text_at 2 _ "" refl (inl refl),
          bool_at 3 _ false refl refl,
          bool_at 15 _ false refl refl,
          reads.slice_of _ [] (at-In 6 run_flags _ refl) refl,
          text_at 7 _ "" refl (inl refl),
          reads.duration_of _ 60000000000 (at-In 5 run_flags _ refl) refl,
          reads.int_of _ 60 (at-In 8 run_flags _ refl) refl,
          bool_at 11 _ true refl refl,
          reads.int_of _ 5 (at-In 9 run_flags _ refl) refl,
          text_at 10 _ "default" refl (inl refl),
          text_at 12 _ "" refl (inl refl),
        )
        refl
