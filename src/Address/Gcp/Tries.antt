-- ===== src/Address/Gcp/Tries.antt =====
-- internal/address/gcp.go: the tries to add an address, over the interface `internalAssigner`.
use kubeip.Base.{
  ℕ, zero, suc, String, Bool, Option, none, some, List, [], ◌∷◌, Error, message, wrap, ok, err,
  panic, unfinished, Action, return, fail, crash, no_fuel, wrapped, attempt, fail_if, Context,
  ◌>>=◌, ◌>>◌,
}
use kubeip.Cloud.Gcp.{Instance, Address}
use kubeip.Address.Gcp.Parts.{max_retries}

-- `internalAssigner`; a nil address is `none`.
pub record InternalAssigner (W : Type 0) : Type 0 where
  pub check_address_assigned : String → String → Action W Bool
  pub add_instance_address : Instance → String → Option Address → Action W (Unit {0})
  pub delete_instance_address : Instance → String → Action W (Unit {0})

module _ {W : Type 0} (ia : InternalAssigner W) where
  unfoldable pub try_assign_address : Instance → String → String → Address → Action W (Unit {0})
  try_assign_address inst region zone address = do
    address_assigned ←
        wrapped "failed to check if address is assigned"
          (ia.check_address_assigned region address.name)
    fail_if address_assigned (message "address is already assigned")
    wrapped "failed to assign static public IP address"
        (ia.add_instance_address inst zone (some address))

  module _ (ctx : Context W) where
    -- The rounds of `retryAddEphemeralAddress` that are left.
    unfoldable pub retry_add_from : ℕ → Instance → String → Action W (Unit {0})
    retry_add_from zero inst zone = fail (message "reached max retries")
    retry_add_from (suc rounds) inst zone = do
      done ← ctx.ctx_err
      elim done [
        | some e ↦ fail (wrap e "context cancelled while assigning ephemeral addresses")
        | none ↦ do
          tried ← attempt (ia.add_instance_address inst zone none)
          elim tried [
            | ok t ↦ return tt
            | err e ↦ retry_add_from rounds inst zone
            | panic ↦ crash
            | unfinished ↦ no_fuel
          ]
      ]

    unfoldable pub retry_add_ephemeral_address : Instance → String → Action W (Unit {0})
    retry_add_ephemeral_address = retry_add_from max_retries

    -- The loop over the addresses in `Assign`, with the last error.
    unfoldable pub assign_first :
        List Address → Instance → String → String → Option Error → Action W String
    assign_first [] inst region zone none = return ""
    assign_first [] inst region zone (some e) =
        fail (wrap e "failed to assign static public IP address")
    assign_first (a ∷ addresses) inst region zone last = do
      done ← ctx.ctx_err
      elim done [
        | some e ↦ fail (wrap e "context cancelled while assigning addresses")
        | none ↦ do
          tried ← attempt (try_assign_address inst region zone a)
          elim tried [
            | ok t ↦ return a.address
            | err e ↦ assign_first addresses inst region zone (some e)
            | panic ↦ crash
            | unfinished ↦ no_fuel
          ]
      ]
