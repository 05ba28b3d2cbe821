-- ===== src/Address/Gcp/Waits.antt =====
-- `waitForOperation` of internal/address/gcp.go.
use kubeip.Base.{
  ℕ, zero, suc, ◌<◌, String, Bool, true, false, Option, none, some, List, [], ◌∷◌, ◌≡◌, refl, arith,
  operation_error, Result, ok, err, Ran, length, ◌==◌, if◌then◌else◌, Context,
}
use kubeip.Cloud.Gcp.{Operation}
use kubeip.Address.Gcp.Parts.{operation_done}
use kubeip.Address.Gcp.{GcpAssigner, wait_from, wait_for_operation}

-- The wait goes on after this answer: no error, and not done.
abbrev pub is_running : Operation → Bool
is_running op = elim op.error [
  | none ↦ if op.status == operation_done then false else true
  | some e ↦ false
]

-- What the wait makes of the answer that ends it: its error, also when its status is done.
abbrev pub outcome : Operation → Result (Unit {0})
outcome op = elim op.error [ none ↦ ok tt | some errors ↦ err (operation_error op.name errors) ]

module _ {W : Type 0} (g : GcpAssigner W) (ctx : Context W) (fuel : ℕ) (zone : String) where
  -- The service answers the calls with these operations, all but the last one still running.
  abbrev pub Polls : String → List Operation → Operation → W → W → Type 0
  Polls name [] final w w' = Ran (g.waiter.wait g.project zone name) w (some final) w'
  Polls name (op ∷ ops) final w w' =
      (v : W) × Ran (g.waiter.wait g.project zone name) w (some op) v
      × (is_running op ≡ true)
      × Polls name ops final v w'

  done_lem :
      (n : ℕ) (name : String) (op : Operation) (w : W)
      → (op.status == operation_done) ≡ true
      → wait_from g ctx fuel n zone name (some op) w ≡ (ok tt, w)
  unfolding wait_from
  done_lem zero name op w h = rw h refl
  done_lem (suc n) name op w h = rw h refl

  running :
      (op : Operation)
      → is_running op ≡ true
      → (op.error ≡ none) × ((op.status == operation_done) ≡ false)
  running op h = ground arith

  ended_lem :
      (n : ℕ) (name : String) (op final : Operation) (o : Option (List String)) (w w' : W)
      → (op.status == operation_done) ≡ false
      → is_running final ≡ false
      → Ran (g.waiter.wait g.project zone name) w (some final) w'
      → final.error ≡ o
      → wait_from g ctx fuel (suc n) zone name (some op) w ≡ (outcome final, w')
  unfolding wait_from
  ended_lem n name op final none w w' start over got e =
      rw (start, got, e) (done_lem n name final w' (ground (arith, rw e at over)))
  ended_lem n name op final (some errors) w w' start over got e = rw (start, got, e) refl

  wait_from_lem :
      (ops : List Operation) (final : Operation) (n : ℕ) (name : String) (op : Operation) (w w' : W)
      → length ops < n
      → (op.status == operation_done) ≡ false
      → is_running final ≡ false
      → Polls name ops final w w'
      → wait_from g ctx fuel n zone name (some op) w ≡ (outcome final, w')
  unfolding wait_from
  wait_from_lem ops final zero name op w w' small start over h = absurd (omega arith)
  wait_from_lem [] final (suc n) name op w w' small start over got =
      ended_lem n name op final final.error w w' start over got refl
  wait_from_lem (p ∷ ps) final (suc n) name op w w' small start over (v, got, more, rest) =
      let (clean, busy) = running p more in
      rw (start, got, clean) (wait_from_lem ps final n name p v w' (omega arith) busy over rest)

  -- With more fuel than there are answers of a running operation, the wait for an operation that is
  -- not done at the start ends with the first other answer: in that operation's error when it has
  -- one, and else in success.
  pub wait_for_operation_lem :
      (op : Operation) (ops : List Operation) (final : Operation) (w w' : W)
      → length ops < fuel
      → (op.status == operation_done) ≡ false
      → is_running final ≡ false
      → Polls op.name ops final w w'
      → wait_for_operation g ctx fuel (some op) zone w ≡ (outcome final, w')
  unfolding wait_for_operation
  wait_for_operation_lem op ops final w w' enough start over h =
      wait_from_lem ops final fuel op.name op w w' enough start over h
