-- ===== src/Address/Gcp/Release.antt =====
-- What `Unassign` of Google Cloud does, and how often it tries to add an ephemeral address.
use kubeip.Base.{
  ℕ, zero, suc, ◌+◌, ◌-◌, ◌<◌, String, false, none, some, List, [], ◌≡◌, refl, sym, ◌∙◌, ◌⊎◌, inl,
  inr, arith, message, ok, err, Ran, Ran-same, >>=-Ran, wrapped>>=-Ran, wrapped-Ran, fail_if,
  fail_if-Ran, is_empty, Option-cases, Context,
}
use kubeip.Base.Dict
use kubeip.Cloud.Gcp.{Instance, Address}
use kubeip.Address.Gcp.Tries.{InternalAssigner, retry_add_from, retry_add_ephemeral_address}
use kubeip.Address.Gcp.Parts.{in_use_status, create_user_map, create_access_config, max_retries}
use kubeip.Address.Gcp.{
  GcpAssigner, internal_assigner, list_addresses, delete_instance_address, unassign,
}
use kubeip.Address.Gcp.Assignment.{Checked}
use kubeip.Address.Gcp.Retries.{AddsFail, retry_add_from-EndsIn}
use kubeip.Address.Gcp.Requests.{
  IsAdded, IsRemoved, add_instance_address-IsAdded, delete_instance_address-IsRemoved,
}

module _ {W : Type 0} (ia : InternalAssigner W) (ctx : Context W) (inst : Instance)
    (zone : String) where
  retry_add_more :
      (n m all : ℕ) (w w' : W)
      → all ≡ n + m
      → AddsFail ia ctx inst zone n w w'
      → retry_add_from ia ctx all inst zone w ≡ retry_add_from ia ctx m inst zone w'
  unfolding retry_add_from
  retry_add_more zero m all w w' e same = let equal : all ≡ m = omega arith in rw (same, equal) refl
  retry_add_more (suc n) m zero w w' e fails = absurd (omega arith)
  retry_add_more (suc n) m (suc all) w w' e (x, v, v', going, failed, rest) =
      rw (going, failed) (retry_add_more n m all v' w' (omega arith) rest)

  no_more_adds :
      (w : W) → retry_add_from ia ctx 0 inst zone w ≡ (err (message "reached max retries"), w)
  unfolding retry_add_from
  no_more_adds w = refl

  added_next :
      (m : ℕ) (w v v' : W)
      → Ran ctx.ctx_err w none v
      → Ran (ia.add_instance_address inst zone none) v tt v'
      → retry_add_from ia ctx (suc m) inst zone w ≡ (ok tt, v')
  unfolding retry_add_from
  added_next m w v v' going added = rw (going, added) refl

  -- Ten failed tries to add an ephemeral address end in the error, and no further try is made.
  pub retry_add_gives_up :
      (w w' : W)
      → AddsFail ia ctx inst zone max_retries w w'
      → retry_add_ephemeral_address ia ctx inst zone w ≡ (err (message "reached max retries"), w')
  unfolding retry_add_ephemeral_address
  retry_add_gives_up w w' fails =
      retry_add_more max_retries 0 max_retries w w' (omega arith) fails ∙ no_more_adds w'

  -- Behind fewer failed tries the next one that succeeds ends in success.
  pub retry_add_ends :
      (n : ℕ) (w w' v v' : W)
      → n < max_retries
      → AddsFail ia ctx inst zone n w w'
      → Ran ctx.ctx_err w' none v
      → Ran (ia.add_instance_address inst zone none) v tt v'
      → Ran (retry_add_ephemeral_address ia ctx inst zone) w tt v'
  unfolding retry_add_ephemeral_address
  retry_add_ends n w w' v v' fewer fails going added =
      retry_add_more n (suc (9 - n)) max_retries w w' (omega arith) fails
      ∙ added_next (9 - n) w' v v' going added

module _ {W : Type 0} (g : GcpAssigner W) (ctx : Context W) (fuel : ℕ)
    (instance_id zone : String) where
  -- Fewer than ten requests have failed, and behind them the service accepted one to add an ephemeral
  -- address to the instance, with only the wait behind.
  abbrev pub AddsEphemeral : Instance → W → W → Type 0
  AddsEphemeral inst w w' =
      (k : ℕ) × (u v : W) × (k < 10)
      × AddsFail (internal_assigner g ctx fuel) ctx inst zone k w u
      × Ran ctx.ctx_err u none v
      × IsAdded g ctx fuel zone inst (create_access_config none g.ipv6) v w'

  retry_add_ephemeral-AddsEphemeral :
      (inst : Instance) (w w' : W)
      → Ran (retry_add_ephemeral_address (internal_assigner g ctx fuel) ctx inst zone) w tt w'
      → AddsEphemeral inst w w'
  unfolding retry_add_ephemeral_address
  retry_add_ephemeral-AddsEphemeral inst w w' h =
      let (k, u, v, fewer, fails, told, added) =
        retry_add_from-EndsIn (internal_assigner g ctx fuel) ctx inst zone max_retries w w' h in
      (
        k,
        u,
        v,
        fewer,
        fails,
        told,
        add_instance_address-IsAdded g ctx fuel zone inst none v w' added,
      )

  -- The service accepted the request to delete the configuration that the instance's interface has;
  -- the instance was read behind the wait for it; and an ephemeral address was asked for.
  abbrev pub Replaced : Instance → W → W → Type 0
  Replaced inst w1 w' =
      (w2 w3 : W) × (refreshed : Instance) × IsRemoved g ctx fuel zone inst w1 w2
      × Ran (g.instance_getter.get g.project zone instance_id) w2 refreshed w3
      × AddsEphemeral refreshed w3 w'

  -- A successful `Unassign` of Google Cloud read the instance and the addresses in use, of which there
  -- are some. Where the map of users has no address for the instance, nothing more is done; where it
  -- has one, the service accepted a request to delete the instance's configuration, the instance was
  -- read afresh, and behind fewer than ten failed requests the service accepted one to add an ephemeral
  -- address to it. How an accepted
  -- request ends is looked at only for the error of an operation that is waited for.
  pub unassign-Replaced :
      (w w' : W)
      → Ran (unassign g ctx fuel instance_id zone) w tt w'
      → (inst : Instance) × (in_use : List Address) × (w1 : W) × Checked g ctx fuel instance_id zone
          inst in_use w w1
        × (is_empty in_use ≡ false)
        × (((Dict.lookup inst.self_link (create_user_map in_use) ≡ none) × (w1 ≡ w'))
            ⊎ ((address : String) × (Dict.lookup inst.self_link (create_user_map in_use)
                  ≡ some address)
                × Replaced inst w1 w'))
  unfolding unassign
  unassign-Replaced w w' h =
      let (inst, v, got, h1) =
        wrapped>>=-Ran _ (g.instance_getter.get g.project zone instance_id) _ w h in
      let (in_use, w1, listed, h2) =
        wrapped>>=-Ran _ (list_addresses g ctx fuel [] "" in_use_status) _ v h1 in
      let (t, v1, full, h3) = >>=-Ran (fail_if (is_empty in_use) _) _ w1 h2 in
      let (some_there, still) = fail_if-Ran (is_empty in_use) _ w1 v1 full in
      (
        inst,
        in_use,
        w1,
        (v, got, listed),
        some_there,
        elim (Option-cases (Dict.lookup inst.self_link (create_user_map in_use))) [
          | inl free ↦ inl (free, still ∙ ground (arith, rw free at h3))
          | inr (address, there) ↦
              let (t1, w2, deleted, h4) =
                wrapped>>=-Ran _ (delete_instance_address g ctx fuel inst zone) _ v1
                  (rw there at h3) in
              let (refreshed, w3, got2, h5) =
                wrapped>>=-Ran _ (g.instance_getter.get g.project zone instance_id) _ w2 h4 in
              let added = retry_add_ephemeral-AddsEphemeral refreshed w3 w' (
                wrapped-Ran _
                  (retry_add_ephemeral_address (internal_assigner g ctx fuel) ctx refreshed zone) w3
                  h5) in
              inr (
                address,
                there,
                (
                  w2,
                  w3,
                  refreshed,
                  delete_instance_address-IsRemoved g ctx fuel zone inst w1 w2 (
                      Ran-same (delete_instance_address g ctx fuel inst zone) (sym still) refl refl
                        deleted),
                  got2,
                  added,
                ),
              )
        ],
      )
