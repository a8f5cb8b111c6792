-- ===== src/Revival/Batch/Counts.antt =====
-- What the result of a batch says of its installments.
use mathlib.Core.List.{append-nil}
use mathlib.Core.Path.{subst}
use revival_integration.Base.{
  if◌then◌else◌, ℕ, ◌+◌, ◌≡◌, refl, sym, ◌∙◌, ap, Option, List, [], ◌∷◌, ◌++◌, String, ℤ, arith,
  length, length-append,
}
use revival_integration.Stdlib.Duration.{Time}
use revival_integration.Revival.Batch.{
  InstallmentPaymentData, BatchInstallmentInput, InstallmentProcessingResult,
  BatchInstallmentResult, BatchCall, returned, add_success, add_failure, process_batch, signal_for,
  batch_installment_processing_workflow,
}

abbrev pub submitted_numbers : List InstallmentPaymentData → List ℤ
submitted_numbers [] = []
submitted_numbers (inst ∷ rest) = inst.installment_number ∷ submitted_numbers rest

abbrev pub result_numbers : List InstallmentProcessingResult → List ℤ
result_numbers [] = []
result_numbers (r ∷ rest) = r.installment_number ∷ result_numbers rest

abbrev pub successes : List InstallmentProcessingResult → ℕ
successes [] = 0
successes (r ∷ rest) = (if r.success then 1 else 0) + successes rest

result_numbers-append :
    (rs : List InstallmentProcessingResult) (r : InstallmentProcessingResult) (ns : List ℤ)
    → result_numbers (rs ++ (r ∷ [])) ++ ns ≡ result_numbers rs ++ (r.installment_number ∷ ns)
result_numbers-append [] r ns = refl
result_numbers-append (x ∷ rs) r ns =
    ap (λ l. x.installment_number ∷ l) (result_numbers-append rs r ns)

successes-append :
    (rs : List InstallmentProcessingResult) (r : InstallmentProcessingResult)
    → successes (rs ++ (r ∷ [])) ≡ successes rs + (if r.success then 1 else 0)
successes-append [] r = omega arith
successes-append (x ∷ rs) r = omega (arith, successes-append rs r)

-- The counters agree with the results so far.
IsCounted : BatchInstallmentResult → Type 0
IsCounted r = (r.successful + r.failed ≡ length r.results) × (r.successful ≡ successes r.results)

add_success-IsCounted :
    (n : ℤ) (r : BatchInstallmentResult) → IsCounted r → IsCounted (add_success n r)
unfolding IsCounted add_success
add_success-IsCounted n r c = (
  omega (arith, c.0, length-append r.results (_ ∷ [])),
  omega (arith, c.1, successes-append r.results _),
)

add_failure-IsCounted :
    (n : ℤ) (message : String) (r : BatchInstallmentResult)
    → IsCounted r
    → IsCounted (add_failure n message r)
unfolding IsCounted add_failure
add_failure-IsCounted n message r c = (
  omega (arith, c.0, length-append r.results (_ ∷ [])),
  omega (arith, c.1, successes-append r.results _),
)

-- The results so far, with those of the installments to come.
Completes : List InstallmentPaymentData → BatchInstallmentResult → BatchInstallmentResult → Type 0
Completes insts r out =
    IsCounted out
    × (result_numbers out.results ≡ result_numbers r.results ++ submitted_numbers insts)
    × (out.total_submitted ≡ r.total_submitted)

success-Completes :
    (inst : InstallmentPaymentData) (insts : List InstallmentPaymentData)
    (r out : BatchInstallmentResult)
    → Completes insts (add_success inst.installment_number r) out
    → Completes (inst ∷ insts) r out
unfolding Completes add_success
success-Completes inst insts r out (c, n, t) = (c, n ∙ result_numbers-append r.results _ _, t)

failure-Completes :
    (inst : InstallmentPaymentData) (message : String) (insts : List InstallmentPaymentData)
    (r out : BatchInstallmentResult)
    → Completes insts (add_failure inst.installment_number message r) out
    → Completes (inst ∷ insts) r out
unfolding Completes add_failure
failure-Completes inst message insts r out (c, n, t) =
    (c, n ∙ result_numbers-append r.results _ _, t)

nothing_left : (r : BatchInstallmentResult) → IsCounted r → Completes [] r r
unfolding Completes
nothing_left r c = (c, sym (append-nil (result_numbers r.results)), refl)

module _ (clock : ℕ → Time) (signalled : ℕ → Option String) (input : BatchInstallmentInput) where
  process_batch-Completes :
      (insts : List InstallmentPaymentData) (r : BatchInstallmentResult) (calls : List BatchCall)
      {out : BatchInstallmentResult} {done : List BatchCall}
      → IsCounted r
      → process_batch clock signalled input insts r calls ≡ returned out done
      → Completes insts r out
  unfolding process_batch
  process_batch-Completes [] r calls {out} c h =
      let same : r ≡ out = cc in subst (Completes [] r) same (nothing_left r c)
  process_batch-Completes (inst ∷ insts) r calls {out} {done} c h =
      let n = inst.installment_number in
      let sent = signal_for clock signalled input inst calls ∷ calls in
      let refused : (message : String) (before : List BatchCall)
          → process_batch clock signalled input insts (add_failure n message r) before
            ≡ returned out done
          → Completes (inst ∷ insts) r out =
        λ message before q. failure-Completes inst message insts r out (
          process_batch-Completes insts (add_failure n message r) before {out = out} {done = done}
            (add_failure-IsCounted n message r c) q) in
      let accepted : process_batch clock signalled input insts (add_success n r)
              (BatchCall.sleep 500 ∷ sent)
            ≡ returned out done
          → Completes (inst ∷ insts) r out =
        λ q. success-Completes inst insts r out (
          process_batch-Completes insts (add_success n r) (BatchCall.sleep 500 ∷ sent) {out = out}
            {done = done} (add_success-IsCounted n r c) q) in
      grind (arith, h, refused, accepted)

  -- A batch that returns a result has one for each installment, in their order; its counters agree
  -- with them, and they add up to the number of installments.
  pub batch_result_counted :
      {out : BatchInstallmentResult} {done : List BatchCall}
      → batch_installment_processing_workflow clock signalled input ≡ returned out done
      → (result_numbers out.results ≡ submitted_numbers input.installments)
        × (out.successful ≡ successes out.results)
        × (out.successful + out.failed ≡ length out.results)
        × (out.total_submitted ≡ length input.installments)
  unfolding batch_installment_processing_workflow Completes IsCounted
  batch_result_counted {out} {done} h =
      let (counted, numbers, total) =
        process_batch-Completes input.installments _ [] {out = out} {done = done} (refl, refl) h in
      (numbers, counted.1, counted.0, total)
