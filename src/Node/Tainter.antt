-- ===== src/Node/Tainter.antt =====
-- internal/node/tainter.go.
pub mod Laws
use kubeip.Base.{
  String, Bool, true, false, List, [], ◌∷◌, ◌++◌, ◌<>◌, ◌==◌, Action, return, lift, wrapped, ◌>>=◌,
  if◌then◌else◌,
}
use kubeip.Kube.{Taint, NodeApi}
use kubeip.Types.{Node}

-- The loop over `taints`, with `newTaints` and `didDelete`.
delete_taints_from : String → List Taint → List Taint → Bool → List Taint × Bool
delete_taints_from key [] kept did = (kept, did)
delete_taints_from key (t ∷ taints) kept did =
    delete_taints_from key taints (if key == t.key then kept else kept ++ (t ∷ []))
      (if key == t.key then true else did)

unfoldable pub delete_taints_by_key : List Taint → String → List Taint × Bool
unfolding delete_taints_from
delete_taints_by_key taints key = delete_taints_from key taints [] false

-- The merge patch around the marshalled taints.
abbrev pub taint_patch : String → String
taint_patch marshaled = "{\"spec\":{\"taints\":" <> marshaled <> "}}"

module _ {W : Type 0} (api : NodeApi W) where
  -- The patch, when the key was found.
  patch_taints : String → List Taint × Bool → Action W Bool
  patch_taints name (taints, false) = return false
  patch_taints name (taints, true) = do
    marshaled ← wrapped "failed to marshal new taints" (lift (api.marshal taints))
    n ← wrapped "failed to patch node taints" (api.patch name (taint_patch marshaled))
    return true

  unfoldable pub remove_taint_key : {Ip : Type 0} → Node Ip → String → Action W Bool
  unfolding patch_taints
  remove_taint_key node taint_key = do
    n ← wrapped "failed to get kubernetes node" (api.get node.name)
    patch_taints node.name (delete_taints_by_key n.taints taint_key)
