-- ===== src/Node/Explorer/Provider.antt =====
-- What the provider ID of a node says: its cloud, and its instance.
use kubeip.Base.{
  Char, List, [], ◌∷◌, Avoids, split, push_first, nat_eq, ltb, length, eq_iff, ◌==◌, ℕ, zero, suc,
  code, ◌≢◌, subst, has_prefix-append, String, true, false, ◌<>◌, ◌≡◌, refl, sym, ◌∙◌, ap, ◌⊎◌, inl,
  inr, arith, Bool-cases, Result, ok, has_prefix,
}
use text.Mathlib.TextEquality.{starts_with_iff, Char-path}
use text.Mathlib.TextLemmas.{cons-append, nil-append}
use kubeip.Types.{CloudProvider, gcp, aws, oci, azure, other}
use kubeip.Node.Explorer.{min_provider_id_tokens, last_piece, get_cloud_provider, get_instance}
use kubeip.Node.Explorer.Laws.{get_instance_last}

-- How the provider ID of a cloud begins.
abbrev pub IsOfCloud : CloudProvider → String → Type 0
IsOfCloud aws id = (rest : String) × ("aws://" <> rest ≡ id)
IsOfCloud azure id = (rest : String) × ("azure://" <> rest ≡ id)
IsOfCloud gcp id = (rest : String) × ("gce://" <> rest ≡ id)
IsOfCloud oci id = (rest : String) × ("oci" <> rest ≡ id)
IsOfCloud (other provider) id = ⊥

has_prefix-rest :
    (id prefix : String) → has_prefix id prefix ≡ true → (rest : String) × (prefix <> rest ≡ id)
unfolding has_prefix
has_prefix-rest id prefix h = (starts_with_iff id prefix).0 h

-- The code of a letter of a text, by its place.
letter : ℕ → String → ℕ
letter n String.[] = 0
letter zero (String.◌∷◌ c s) = code c
letter (suc n) (String.◌∷◌ c s) = letter n s

Reaches : ℕ → String → Type 0
Reaches n String.[] = ⊥
Reaches zero (String.◌∷◌ c s) = Unit
Reaches (suc n) (String.◌∷◌ c s) = Reaches n s

letter-append : (n : ℕ) (p r : String) → Reaches n p → letter n (p <> r) ≡ letter n p
unfolding letter Reaches
letter-append n String.[] r h = absurd h
letter-append zero (String.◌∷◌ c p) r h = rw (cons-append c p r) refl
letter-append (suc n) (String.◌∷◌ c p) r h = rw (cons-append c p r) (letter-append n p r h)

-- Texts that begin otherwise differ.
no_prefix :
    (n : ℕ) (p q r : String)
    → Reaches n p
    → Reaches n q
    → letter n p ≢ letter n q
    → has_prefix (q <> r) p ≡ false
no_prefix n p q r long_p long_q differ = elim (Bool-cases (has_prefix (q <> r) p)) [
  | inl begins ↦
      let (rest, same) = has_prefix-rest (q <> r) p begins in
      absurd (
        differ
          (sym (letter-append n p rest long_p) ∙ (ap (letter n) same ∙ letter-append n q r long_q)))
  | inr other_text ↦ other_text
]

ok-eq : {A : Type 0} (a b : A) → (◌≡◌ {A = Result A} (ok a) (ok b)) → a ≡ b
ok-eq a b h = ground arith

pub IsOfCloud-eq :
    (cloud : CloudProvider) (id : String) → IsOfCloud cloud id → get_cloud_provider id ≡ ok cloud
unfolding get_cloud_provider letter Reaches
IsOfCloud-eq aws id (rest, same) = rw⁻¹ same (rw (has_prefix-append "aws://" rest) refl)
IsOfCloud-eq azure id (rest, same) = rw⁻¹ same (
    rw
      (
        no_prefix 1 "aws://" "azure://" rest tt tt (λ e. omega (arith, e)),
        has_prefix-append "azure://" rest,
      )
      refl)
IsOfCloud-eq gcp id (rest, same) = rw⁻¹ same (
    rw
      (
        no_prefix 0 "aws://" "gce://" rest tt tt (λ e. omega (arith, e)),
        no_prefix 0 "azure://" "gce://" rest tt tt (λ e. omega (arith, e)),
        has_prefix-append "gce://" rest,
      )
      refl)
IsOfCloud-eq oci id (rest, same) = rw⁻¹ same (
    rw
      (
        no_prefix 0 "aws://" "oci" rest tt tt (λ e. omega (arith, e)),
        no_prefix 0 "azure://" "oci" rest tt tt (λ e. omega (arith, e)),
        no_prefix 0 "gce://" "oci" rest tt tt (λ e. omega (arith, e)),
        has_prefix-append "oci" rest,
      )
      refl)
IsOfCloud-eq (other provider) id h = absurd h

-- Such an ID is not empty.
pub IsOfCloud-some_text : (cloud : CloudProvider) (id : String) → IsOfCloud cloud id → id ≢ ""
unfolding letter Reaches
IsOfCloud-some_text aws id (rest, same) e =
    omega (arith, sym (letter-append 0 "aws://" rest tt) ∙ (ap (letter 0) same ∙ ap (letter 0) e))
IsOfCloud-some_text azure id (rest, same) e =
    omega (arith, sym (letter-append 0 "azure://" rest tt) ∙ (ap (letter 0) same ∙ ap (letter 0) e))
IsOfCloud-some_text gcp id (rest, same) e =
    omega (arith, sym (letter-append 0 "gce://" rest tt) ∙ (ap (letter 0) same ∙ ap (letter 0) e))
IsOfCloud-some_text oci id (rest, same) e =
    omega (arith, sym (letter-append 0 "oci" rest tt) ∙ (ap (letter 0) same ∙ ap (letter 0) e))
IsOfCloud-some_text (other provider) id h e = h

pub eq-IsOfCloud :
    (cloud : CloudProvider) (id : String) → get_cloud_provider id ≡ ok cloud → IsOfCloud cloud id
unfolding get_cloud_provider
eq-IsOfCloud cloud id h = elim (Bool-cases (has_prefix id "aws://")) [
  | inl y ↦ subst (λ c. IsOfCloud c id) (ok-eq _ _ (rw y at h)) (has_prefix-rest id "aws://" y)
  | inr n1 ↦ elim (Bool-cases (has_prefix id "azure://")) [
    | inl y ↦
        subst (λ c. IsOfCloud c id) (ok-eq _ _ (rw (n1, y) at h)) (has_prefix-rest id "azure://" y)
    | inr n2 ↦ elim (Bool-cases (has_prefix id "gce://")) [
      | inl y ↦
          subst (λ c. IsOfCloud c id) (ok-eq _ _ (rw (n1, n2, y) at h))
            (has_prefix-rest id "gce://" y)
      | inr n3 ↦ elim (Bool-cases (has_prefix id "oci")) [
        | inl y ↦
            subst (λ c. IsOfCloud c id) (ok-eq _ _ (rw (n1, n2, n3, y) at h))
              (has_prefix-rest id "oci" y)
        | inr n4 ↦ absurd (ground (arith, rw (n1, n2, n3, n4) at h))
      ]
    ]
  ]
]

-- What the pieces of a text say of it: one piece is the text; of more the last is what follows the last
-- separator.
Splits : String → List String → Type 0
Splits s [] = ⊥
Splits s (p ∷ []) = (s ≡ p) × Avoids b'/' s
Splits s (p ∷ q ∷ qs) =
    (last : String)
    → last_piece (q ∷ qs) ≡ ok last
    → Avoids b'/' last × ((pre : String) × (pre <> ("/" <> last) ≡ s))

longer :
    (c : Char) (s last : String)
    → Avoids b'/' last × ((pre : String) × (pre <> ("/" <> last) ≡ s))
    → Avoids b'/' last × ((pre : String) × (pre <> ("/" <> last) ≡ String.◌∷◌ c s))
longer c s last (avoids, (pre, same)) =
    (avoids, (String.◌∷◌ c pre, cons-append c pre ("/" <> last) ∙ ap (String.◌∷◌ c) same))

slash-append :
    (c : Char) (s : String) → nat_eq (code c) b'/' ≡ true → "" <> ("/" <> s) ≡ String.◌∷◌ c s
slash-append c s h =
    let slash : Char = "/" in
    let same : c ≡ slash = Char-path c slash (ground (arith, h)) in
    nil-append ("/" <> s)
    ∙ (cons-append slash "" s
        ∙ (ap (String.◌∷◌ slash) (nil-append s) ∙ ap (λ d. String.◌∷◌ d s) (sym same)))

Splits-separator :
    (c : Char) (s : String) (ps : List String)
    → nat_eq (code c) b'/' ≡ true
    → Splits s ps
    → Splits (String.◌∷◌ c s) ("" ∷ ps)
unfolding Splits
Splits-separator c s [] h splits = absurd splits
Splits-separator c s (p ∷ []) h (whole, avoids) = λ last is_last.
    let same : s ≡ last = whole ∙ ok-eq _ _ is_last in
    subst (λ x. Avoids b'/' x × ((pre : String) × (pre <> ("/" <> x) ≡ String.◌∷◌ c s))) same
      (avoids, ("", slash-append c s h))
Splits-separator c s (p ∷ q ∷ qs) h splits = λ last is_last. longer c s last (splits last is_last)

Splits-push_first :
    (c : Char) (s : String) (ps : List String)
    → nat_eq (code c) b'/' ≡ false
    → Splits s ps
    → Splits (String.◌∷◌ c s) (push_first c ps)
unfolding Splits
Splits-push_first c s [] h splits = absurd splits
Splits-push_first c s (p ∷ []) h (whole, avoids) = (ap (String.◌∷◌ c) whole, (h, avoids))
Splits-push_first c s (p ∷ q ∷ qs) h splits = λ last is_last. longer c s last (splits last is_last)

split-Splits : (s : String) → Splits s (split b'/' s)
unfolding split Splits
split-Splits String.[] = (refl, tt)
split-Splits (String.◌∷◌ c s) = elim (Bool-cases (nat_eq (code c) b'/')) [
  | inl separator ↦ rw separator (Splits-separator c s (split b'/' s) separator (split-Splits s))
  | inr letter_of ↦ rw letter_of (Splits-push_first c s (split b'/' s) letter_of (split-Splits s))
]

-- The instance that a provider ID names: of OCI the whole, else what follows the last slash.
abbrev pub NamesInstance : String → String → Type 0
NamesInstance id instance =
    ((has_prefix id "oci" ≡ true) × (id ≡ instance))
    ⊎ ((has_prefix id "oci" ≡ false)
        × Avoids b'/' instance
        × ((pre : String) × (pre <> ("/" <> instance) ≡ id)))

pub NamesInstance-eq :
    (id instance : String) → (id ≢ "") → NamesInstance id instance → get_instance id ≡ ok instance
unfolding get_instance
NamesInstance-eq id instance some_text (inl (whole, same)) =
    ground (arith, whole, same, eq_iff id "")
NamesInstance-eq id instance some_text (inr (no_oci, avoids, (pre, same))) =
    subst (λ x. get_instance x ≡ ok instance) same
      (get_instance_last pre instance avoids
        (subst (λ x. has_prefix x "oci" ≡ false) (sym same) no_oci))

pieces-NamesInstance :
    (id instance : String) (ps : List String)
    → has_prefix id "oci" ≡ false
    → Splits id ps
    → ltb (length ps) min_provider_id_tokens ≡ false
    → last_piece ps ≡ ok instance
    → NamesInstance id instance
unfolding Splits
pieces-NamesInstance id instance [] no_oci splits many h = absurd splits
pieces-NamesInstance id instance (p ∷ []) no_oci splits many h = absurd (ground arith)
pieces-NamesInstance id instance (p ∷ q ∷ qs) no_oci splits many h =
    let (avoids, found) = splits instance h in inr (no_oci, avoids, found)

pub eq-NamesInstance :
    (id instance : String) → get_instance id ≡ ok instance → (id ≢ "") × NamesInstance id instance
unfolding get_instance
eq-NamesInstance id instance h = elim (Bool-cases (id == "")) [
  | inl empty ↦ absurd (ground (arith, rw empty at h))
  | inr some_text ↦ (
    λ bad. ground (arith, some_text, bad, eq_iff id ""),
    elim (Bool-cases (has_prefix id "oci")) [
      | inl whole ↦ inl (whole, ok-eq _ _ (rw (some_text, whole) at h))
      | inr no_oci ↦ elim (Bool-cases (ltb (length (split b'/' id)) min_provider_id_tokens)) [
        | inl few ↦ absurd (ground (arith, rw (some_text, no_oci, few) at h))
        | inr many ↦
            pieces-NamesInstance id instance (split b'/' id) no_oci (split-Splits id) many
              (rw (some_text, no_oci, many) at h)
      ]
    ],
  )
]
