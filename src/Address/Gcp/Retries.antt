-- ===== src/Address/Gcp/Retries.antt =====
-- How the tries of internal/address/gcp.go to add an ephemeral address end.
use kubeip.Base.{
  ◌<◌, ℕ, zero, suc, String, Option, none, some, ◌≡◌, refl, ap, ◌∙◌, arith, Result, ok, err, panic,
  unfinished, Ran, >>=-Ran, Error, Context,
}
use kubeip.Cloud.Gcp.{Instance}
use kubeip.Address.Gcp.Tries.{InternalAssigner, retry_add_from}

module _ {W : Type 0} (ia : InternalAssigner W) (ctx : Context W) (inst : Instance)
    (zone : String) where
  -- So many tries in a row have failed, the context not being done before any of them.
  abbrev pub AddsFail : ℕ → W → W → Type 0
  AddsFail zero w w' = w ≡ w'
  AddsFail (suc n) w w' =
      (e : Error) × (v v' : W) × Ran ctx.ctx_err w none v
      × (ia.add_instance_address inst zone none v ≡ (err e, v'))
      × AddsFail n v' w'

  going_on :
      (n : ℕ) (w v w' : W) (done : Option Error)
      → Ran ctx.ctx_err w done v
      → Ran (retry_add_from ia ctx (suc n) inst zone) w tt w'
      → done ≡ none
  unfolding retry_add_from
  going_on n w v w' none told h = refl
  going_on n w v w' (some e) told h = absurd (ground (arith, rw told at h))

  context_told :
      (n : ℕ) (w w' : W)
      → Ran (retry_add_from ia ctx (suc n) inst zone) w tt w'
      → (v : W) × Ran ctx.ctx_err w none v
  unfolding retry_add_from
  context_told n w w' h =
      let (done, v, told, rest) = >>=-Ran ctx.ctx_err _ w h in
      let none_yet = going_on n w v w' done told h in (v, told ∙ ap (λ d. (ok d, v)) none_yet)

  -- Tries that end in success: fewer than allowed have failed, and the next added an address as the last
  -- call.
  abbrev pub EndsIn : ℕ → W → W → Type 0
  EndsIn n w w' =
      (k : ℕ) × (u v : W) × (k < n)
      × AddsFail k w u
      × Ran ctx.ctx_err u none v
      × Ran (ia.add_instance_address inst zone none) v tt w'

  EndsIn-more :
      (n : ℕ) (w v w1 w' : W) (e : Error)
      → Ran ctx.ctx_err w none v
      → ia.add_instance_address inst zone none v ≡ (err e, w1)
      → EndsIn n w1 w'
      → EndsIn (suc n) w w'
  EndsIn-more n w v w1 w' e going failed (k, u, v1, fewer, fails, told, added) =
      (suc k, u, v1, omega (arith, fewer), (e, v, w1, going, failed, fails), told, added)

  EndsIn-by :
      (n : ℕ) (w v v' w' : W) (r : Result (Unit {0}))
      → Ran ctx.ctx_err w none v
      → ia.add_instance_address inst zone none v ≡ (r, v')
      → Ran (retry_add_from ia ctx (suc n) inst zone) w tt w'
      → (Ran (retry_add_from ia ctx n inst zone) v' tt w' → EndsIn n v' w')
      → EndsIn (suc n) w w'
  unfolding retry_add_from
  EndsIn-by n w v v' w' (ok t) going added h rest =
      let same : v' ≡ w' = ground (arith, rw (going, added) at h) in
      (0, w, v, omega arith, refl, going, added ∙ ap (λ u. (ok tt, u)) same)
  EndsIn-by n w v v' w' (err e) going failed h rest =
      EndsIn-more n w v v' w' e going failed (rest (rw (going, failed) at h))
  EndsIn-by n w v v' w' panic going added h rest = absurd (ground (arith, rw (going, added) at h))
  EndsIn-by n w v v' w' unfinished going added h rest =
      absurd (ground (arith, rw (going, added) at h))

  pub retry_add_from-EndsIn :
      (n : ℕ) (w w' : W) → Ran (retry_add_from ia ctx n inst zone) w tt w' → EndsIn n w w'
  unfolding retry_add_from
  retry_add_from-EndsIn zero w w' h = absurd (ground (arith, h))
  retry_add_from-EndsIn (suc n) w w' h =
      let (v, going) = context_told n w w' h in
      let tried = ia.add_instance_address inst zone none v in
      EndsIn-by n w v tried.1 w' tried.0 going refl h
        (λ more. retry_add_from-EndsIn n tried.1 w' more)
