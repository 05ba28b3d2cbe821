-- ===== src/Address/Gcp/Pages.antt =====
-- `listAddresses` of internal/address/gcp.go over several pages.
use kubeip.Base.{
  ℕ, zero, suc, ◌<◌, String, true, false, List, [], ◌∷◌, ◌++◌, ◌≡◌, refl, arith, ok, Ran, length,
  ◌==◌, eq_iff, subst, inl, inr, Bool-cases, Context,
}
use mathlib.Core.List.{append_assoc}
use kubeip.Cloud.Gcp.{Address, ListCall, AddressList, list_call}
use kubeip.Address.Gcp.Parts.{address_filter}
use kubeip.Address.Gcp.{GcpAssigner, list_from, list_addresses}

module _ {W : Type 0} (g : GcpAssigner W) (ctx : Context W) (fuel : ℕ) where
  -- The service answers the call, and the calls for the pages that follow, with these pages; only the
  -- final one names no next page.
  abbrev pub Answers : ListCall → List AddressList → AddressList → W → W → Type 0
  Answers call [] final w w' =
      Ran (g.lister.do_call call) w final w' × ((final.next_page_token == "") ≡ true)
  Answers call (p ∷ ps) final w w' =
      (v : W) × Ran (g.lister.do_call call) w p v
      × ((p.next_page_token == "") ≡ false)
      × Answers (record call { page_token = p.next_page_token }) ps final v w'

  abbrev pub all_items : List AddressList → AddressList → List Address
  all_items [] final = final.items
  all_items (p ∷ ps) final = p.items ++ all_items ps final

  list_from_lem :
      (ps : List AddressList) (final : AddressList) (n : ℕ) (call : ListCall) (acc : List Address)
      (w w' : W)
      → length ps < n
      → Answers call ps final w w'
      → list_from g ctx fuel n call acc w ≡ (ok (acc ++ all_items ps final), w')
  unfolding list_from
  list_from_lem ps final zero call acc w w' small h = absurd (omega arith)
  list_from_lem [] final (suc n) call acc w w' small h = rw (h.0, h.1) refl
  list_from_lem (p ∷ ps) final (suc n) call acc w w' small (v, got, more, rest) =
      rw
        (
          got,
          more,
          list_from_lem ps final n (record call { page_token = p.next_page_token }) (acc ++ p.items)
              v w' (omega arith) rest,
          append_assoc acc p.items (all_items ps final),
        )
        refl

  -- The call that a list of addresses starts with.
  abbrev pub first_call : List String → String → String → ListCall
  first_call filter order_by status = record (list_call g.project g.region) {
    filter = address_filter g.ipv6 filter status;
    order_by = order_by;
  }

  -- With more fuel than there are pages before the final one, a list of addresses is everything
  -- that the service's pages hold, in their order.
  pub list_addresses_lem :
      (filter : List String) (order_by status : String) (ps : List AddressList)
      (final : AddressList) (w w' : W)
      → length ps < fuel
      → Answers (first_call filter order_by status) ps final w w'
      → list_addresses g ctx fuel filter order_by status w ≡ (ok (all_items ps final), w')
  unfolding list_addresses
  list_addresses_lem filter order_by status ps final w w' enough h =
      elim (Bool-cases (order_by == "")) [
        | inl unordered ↦
            let same : order_by ≡ "" = ground (arith, eq_iff order_by "") in
            rw unordered (
              list_from_lem ps final fuel (first_call filter "" status) [] w w' enough
                (subst (λ o. Answers (first_call filter o status) ps final w w') same h))
        | inr ordered ↦
            rw ordered
              (list_from_lem ps final fuel (first_call filter order_by status) [] w w' enough h)
      ]
