-- ===== src/Node/Tainter/Laws.antt =====
-- What the removal of a taint leaves on the node.
use kubeip.Base.{
  String, Bool, true, false, not, ◌||◌, List, [], ◌∷◌, ◌++◌, ◌≡◌, ◌≢◌, refl, sym, ◌∙◌, lift, filter,
  any, ◌==◌, ok, arith, Bool-cases, inl, inr, Ran, wrapped>>=-Ran,
}
use mathlib.Core.List.{append_assoc, append-nil}
use kubeip.Kube.{Taint, KubeNode, NodeApi}
use kubeip.Types.{Node}
use kubeip.Node.Tainter.{
  delete_taints_from, delete_taints_by_key, patch_taints, remove_taint_key, taint_patch,
}

-- The taints with another key, and the test for the key.
abbrev pub other_taints : String → List Taint → List Taint
other_taints key = filter (λ t. not (key == t.key))

abbrev pub has_taint : String → List Taint → Bool
has_taint key = any (λ t. key == t.key)

or-true : (b : Bool) → (b || true) ≡ true
or-true true = refl
or-true false = refl

or-false : (b : Bool) → (b || false) ≡ b
or-false true = refl
or-false false = refl

other_taints_twice :
    (key : String) (taints : List Taint)
    → ◌≡◌ {A = List Taint × Bool}
        (other_taints key (other_taints key taints), has_taint key (other_taints key taints))
        (other_taints key taints, false)
other_taints_twice key [] = refl
other_taints_twice key (t ∷ taints) = elim (Bool-cases (key == t.key)) [
  | inl same ↦ rw same (other_taints_twice key taints)
  | inr differs ↦ rw differs (ground (arith, other_taints_twice key taints))
]

delete_taints_from_lem :
    (key : String) (taints kept : List Taint) (did : Bool)
    → delete_taints_from key taints kept did
      ≡ (kept ++ other_taints key taints, has_taint key taints || did)
unfolding delete_taints_from
delete_taints_from_lem key [] kept did = rw append-nil
delete_taints_from_lem key (t ∷ taints) kept did = elim (Bool-cases (key == t.key)) [
  | inl same ↦ rw (same, delete_taints_from_lem key taints kept true, or-true)
  | inr differs ↦
      rw (differs, delete_taints_from_lem key taints (kept ++ (t ∷ [])) did, append_assoc)
]

-- The loop keeps exactly the taints with another key, in their order, and reports whether the key
-- was there.
pub delete_taints_by_key_lem :
    (taints : List Taint) (key : String)
    → delete_taints_by_key taints key ≡ (other_taints key taints, has_taint key taints)
unfolding delete_taints_by_key
delete_taints_by_key_lem taints key = rw (delete_taints_from_lem, or-false)

-- No taint with the key is left, so a second removal finds nothing to do.
pub delete_taints_by_key_twice :
    (taints : List Taint) (key : String)
    → delete_taints_by_key (delete_taints_by_key taints key).0 key
      ≡ ((delete_taints_by_key taints key).0, false)
delete_taints_by_key_twice taints key =
    rw (delete_taints_by_key_lem, delete_taints_by_key_lem) (other_taints_twice key taints)

-- What is relied on of the API server: `get` answers with the node's taints and changes none, and a
-- merge patch that holds a marshalled list makes it the node's list and leaves other nodes alone.
pub record IsNodeApi {W : Type 0} (api : NodeApi W) (taints_of : W → String → List Taint)
    : Type 0 where
  pub get_answers :
      (name : String) (w w' : W) (n : KubeNode)
      → api.get name w ≡ (ok n, w')
      → (n.taints ≡ taints_of w name) × ((m : String) → taints_of w' m ≡ taints_of w m)
  pub patch_sets :
      (name text : String) (taints : List Taint) (w w' : W) (n : KubeNode)
      → api.marshal taints ≡ ok text
      → api.patch name (taint_patch text) w ≡ (ok n, w')
      → (taints_of w' name ≡ taints) × ((m : String) → m ≢ name → taints_of w' m ≡ taints_of w m)

other_taints_absent :
    (key : String) (taints : List Taint)
    → has_taint key taints ≡ false
    → other_taints key taints ≡ taints
other_taints_absent key [] h = refl
other_taints_absent key (t ∷ taints) h = ground (arith, other_taints_absent key taints)

module _ {W : Type 0} (api : NodeApi W) (taints_of : W → String → List Taint)
    (lawful : IsNodeApi api taints_of) where
  patch_taints_found :
      (name : String) (taints : List Taint) (v w' : W) (did : Bool)
      → Ran (patch_taints api name (taints, true)) v did w'
      → (taints_of w' name ≡ taints)
        × (did ≡ true)
        × ((m : String) → m ≢ name → taints_of w' m ≡ taints_of v m)
  unfolding patch_taints
  patch_taints_found name taints v w' did h =
      let (text, v1, marshaled, h1) = wrapped>>=-Ran _ (lift (api.marshal taints)) _ v h in
      let (n, v2, patched, h2) = wrapped>>=-Ran _ (api.patch name (taint_patch text)) _ v1 h1 in
      let sets = lawful.patch_sets name text taints v1 v2 n (ground arith) patched in
      let same : v1 ≡ v = ground arith in
      let last : v2 ≡ w' = ground arith in
      (rw (← last) sets.0, ground arith, λ m ne. rw (← last, ← same) (sets.1 m ne))

  patch_taints_lem :
      (name key : String) (taints : List Taint) (v w' : W) (did : Bool)
      → taints_of v name ≡ taints
      → Ran (patch_taints api name (other_taints key taints, has_taint key taints)) v did w'
      → (taints_of w' name ≡ other_taints key taints)
        × (did ≡ has_taint key taints)
        × ((m : String) → m ≢ name → taints_of w' m ≡ taints_of v m)
  patch_taints_lem name key taints v w' did e h = elim (Bool-cases (has_taint key taints)) [
    | inl has ↦ rw has (patch_taints_found name _ v w' did (rw has at h))
    | inr lacks ↦ rw (lacks, other_taints_absent key taints lacks) (absent (rw lacks at h))
  ]
    where
      absent :
          Ran (patch_taints api name (other_taints key taints, false)) v did w'
          → (taints_of w' name ≡ taints)
            × (did ≡ false)
            × ((m : String) → m ≢ name → taints_of w' m ≡ taints_of v m)
      absent h =
          let same : v ≡ w' = unfold patch_taints in ground arith in
          (rw (← same) e, unfold patch_taints in ground arith, λ m ne. rw same)

  -- A removal that reports success has left the node with exactly its taints of other keys, and
  -- no other node touched; it reports whether the key was there.
  pub remove_taint_key_lem :
      {Ip : Type 0} (node : Node Ip) (key : String) (w w' : W) (did : Bool)
      → Ran (remove_taint_key api node key) w did w'
      → (taints_of w' node.name ≡ other_taints key (taints_of w node.name))
        × (did ≡ has_taint key (taints_of w node.name))
        × ((m : String) → m ≢ node.name → taints_of w' m ≡ taints_of w m)
  unfolding remove_taint_key
  remove_taint_key_lem node key w w' did h =
      let (n, v, got, rest) = wrapped>>=-Ran _ (api.get node.name) _ w h in
      let answer = lawful.get_answers node.name w v n got in
      let patched =
        patch_taints_lem node.name key n.taints v w' did (answer.1 node.name ∙ sym answer.0)
          (rw delete_taints_by_key_lem at rest) in
      (rw (← answer.0) patched.0, rw (← answer.0) patched.1, λ m ne. patched.2 m ne ∙ answer.1 m)
