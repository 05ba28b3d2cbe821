-- ===== src/Address/Gcp/Choice.antt =====
-- Which address the assigner of Google Cloud gives.
use kubeip.Base.{
  In, String, false, Option, none, some, List, [], ◌∷◌, ◌≡◌, refl, ap, subst, ◌⊎◌, inl, inr, arith,
  Error, Result, ok, err, panic, unfinished, Ran, >>=-Ran, wrapped>>=-Ran, wrapped-Ran, attempt-Ran,
  fail_if, fail_if-Ran, attempt, return, crash, no_fuel, is_empty, Context, ◌∙◌,
}
use kubeip.Cloud.Gcp.{Instance, Address}
use kubeip.Address.Gcp.Tries.{InternalAssigner, try_assign_address, assign_first}

module _ {W : Type 0} (ia : InternalAssigner W) (inst : Instance) (region zone : String) where
  -- The fresh check of the address found it free, and adding it was the last call.
  abbrev pub Added : Address → W → Type 0
  Added x w' =
      (v : W) × (v1 : W) × Ran (ia.check_address_assigned region x.name) v false v1
      × Ran (ia.add_instance_address inst zone (some x)) v1 tt w'

  try_assign_address-Added :
      (x : Address) (w w' : W) → Ran (try_assign_address ia inst region zone x) w tt w' → Added x w'
  unfolding try_assign_address
  try_assign_address-Added x w w' h =
      let (b, v, checked, h1) = wrapped>>=-Ran _ (ia.check_address_assigned region x.name) _ w h in
      let (t, v1, free, h2) = >>=-Ran (fail_if b _) _ v h1 in
      let (idle, same) = fail_if-Ran b _ v v1 free in
      (
        w,
        v,
        subst (λ c. Ran (ia.check_address_assigned region x.name) w c v) idle checked,
        rw same (wrapped-Ran _ (ia.add_instance_address inst zone (some x)) v1 h2),
      )

  module _ (ctx : Context W) where
    -- What follows a try.
    after_try :
        (x : Address) (xs : List Address) (ip : String) (w1 w2 w' : W) (r : Result (Unit {0}))
        → try_assign_address ia inst region zone x w1 ≡ (r, w2)
        → Ran
            (elim r [
              | ok t ↦ return x.address
              | err e ↦ assign_first ia ctx xs inst region zone (some e)
              | panic ↦ crash
              | unfinished ↦ no_fuel
            ])
            w2
            ip
            w'
        → ((x.address ≡ ip) × Added x w')
          ⊎ ((e : Error) × (v : W) × Ran (assign_first ia ctx xs inst region zone (some e)) v ip w')
    after_try x xs ip w1 w2 w' (ok t) tried h =
        let same : w2 ≡ w' = ground arith in
        inl (ground arith, try_assign_address-Added x w1 w' (tried ∙ ap (λ v. (ok tt, v)) same))
    after_try x xs ip w1 w2 w' (err e) tried h = inr (e, w2, h)
    after_try x xs ip w1 w2 w' panic tried h = absurd (ground arith)
    after_try x xs ip w1 w2 w' unfinished tried h = absurd (ground arith)

    after_check :
        (x : Address) (xs : List Address) (ip : String) (last done : Option Error) (w w1 w' : W)
        → Ran ctx.ctx_err w done w1
        → Ran (assign_first ia ctx (x ∷ xs) inst region zone last) w ip w'
        → ((x.address ≡ ip) × Added x w')
          ⊎ ((e : Error) × (v : W) × Ran (assign_first ia ctx xs inst region zone (some e)) v ip w')
    unfolding assign_first
    after_check x xs ip last (some e) w w1 w' got h = absurd (ground (arith, rw got at h))
    after_check x xs ip last none w w1 w' got h =
        let (r, w2, tried, h1) =
          >>=-Ran (attempt (try_assign_address ia inst region zone x)) _ w1 (rw got at h) in
        after_try x xs ip w1 w2 w' r
          (attempt-Ran (try_assign_address ia inst region zone x) w1 tried) h1

    assign_first_step :
        (x : Address) (xs : List Address) (ip : String) (last : Option Error) (w w' : W)
        → Ran (assign_first ia ctx (x ∷ xs) inst region zone last) w ip w'
        → ((x.address ≡ ip) × Added x w')
          ⊎ ((e : Error) × (v : W) × Ran (assign_first ia ctx xs inst region zone (some e)) v ip w')
    unfolding assign_first
    assign_first_step x xs ip last w w' h =
        let (done, w1, got, h1) = >>=-Ran ctx.ctx_err _ w h in
        after_check x xs ip last done w w1 w' got h

    no_more :
        (ip : String) (e : Error) (w w' : W)
        → ¬ Ran (assign_first ia ctx [] inst region zone (some e)) w ip w'
    unfolding assign_first
    no_more ip e w w' h = ground arith

    -- The address is one of the list's, and was added as the last call after a fresh check.
    abbrev pub Taken : List Address → String → W → Type 0
    Taken addresses ip w' = (x : Address) × In x addresses × (x.address ≡ ip) × Added x w'

    Taken-after :
        (xs : List Address) (ip : String) (e : Error) (w w' : W)
        → Ran (assign_first ia ctx xs inst region zone (some e)) w ip w'
        → Taken xs ip w'
    Taken-after [] ip e w w' h = absurd (no_more ip e w w' h)
    Taken-after (x ∷ xs) ip e w w' h = elim (assign_first_step x xs ip (some e) w w' h) [
      | inl (there, added) ↦ (x, inl refl, there, added)
      | inr (e', v, rest) ↦
          let (y, at, there, added) = Taken-after xs ip e' v w' rest in (y, inr at, there, added)
    ]

    pub assign_first-Taken :
        (xs : List Address) (ip : String) (w w' : W)
        → is_empty xs ≡ false
        → Ran (assign_first ia ctx xs inst region zone none) w ip w'
        → Taken xs ip w'
    assign_first-Taken [] ip w w' full h = absurd (ground arith)
    assign_first-Taken (x ∷ xs) ip w w' full h = elim (assign_first_step x xs ip none w w' h) [
      | inl (there, added) ↦ (x, inl refl, there, added)
      | inr (e', v, rest) ↦
          let (y, at, there, added) = Taken-after xs ip e' v w' rest in (y, inr at, there, added)
    ]
