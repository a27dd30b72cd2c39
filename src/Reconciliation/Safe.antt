-- ===== src/Reconciliation/Safe.antt =====
-- When a failed step may be run again, and when it counts as done.
use google_connector_app.Prelude.{
  String, ◌≡◌, ◌≢◌, ◌↔◌, ◌⊎◌, inl, inr, refl, sym, ap, ◌∙◌, Bool, true, false, not, ◌&&◌, ◌||◌,
  Option, none, some, List, [], ◌∷◌, arith, map, any, all, keep, nonempty, contains, Option-cases,
  Bool-cases,
}
use google_connector_app.Runs.{Step}
use google_connector_app.Contracts.{WriteContract, Execution, attempted_required_tools, tool_name}
use google_connector_app.Reconciliation.{
  safe_to_retry, already_completed, manual_required, ReconciliationDecision, Verify,
  VerificationOutcome, idempotent_writes, tool_executions, contract_of, is_chat_misconfigured,
  category_of, is_write, is_write_name, is_category, explicitly_failed, explicit_failures,
  attempted_writes, reconcile_attempted, reconcile_unattempted, reconcile_write,
  reconcile_failed_step,
}

-- A write in the trace that can be repeated: the tool is idempotent, and the provider said plainly
-- that the call failed.
abbrev pub may_redo : Execution → Bool
may_redo e = not (is_write e) || contains idempotent_writes (tool_name e) && explicitly_failed e

all-kept :
    {A B : Type 0} (p x : A → Bool) (f : A → B) (q : B → Bool) (rest : List A)
    → all q (map f (keep p rest)) ≡ true
    → all (λ a. not (p a) || x a) rest ≡ true
    → all (λ a. not (p a) || q (f a) && x a) rest ≡ true
all-kept p x f q [] h k = refl
all-kept p x f q (a ∷ rest) h k = ground (arith, all-kept p x f q rest)

redo-all :
    (executions : List Execution)
    → all (contains idempotent_writes) (attempted_writes executions) ≡ true
    → explicit_failures executions ≡ true
    → all may_redo executions ≡ true
unfolding attempted_writes explicit_failures
redo-all executions h k =
    all-kept is_write explicitly_failed tool_name (contains idempotent_writes) executions h k

module _ (outcome : VerificationOutcome) (executions : List Execution) (s : Step) where
  attempted-safe :
      (reconcile_attempted outcome executions s).state ≡ safe_to_retry
      → (outcome.passed ≡ false)
        × (nonempty (attempted_writes executions) ≡ true)
        × (all may_redo executions ≡ true)
  unfolding reconcile_attempted
  attempted-safe h = ground (arith, redo-all executions)

  attempted-completed :
      (reconcile_attempted outcome executions s).state ≡ already_completed → outcome.passed ≡ true
  unfolding reconcile_attempted
  attempted-completed h = ground arith

module _ (category : Option String) (historical : List (Option String)) (s : Step) where
  unattempted-safe :
      (reconcile_unattempted category historical s).state ≡ safe_to_retry
      → (any is_write_name historical ≡ false)
        × (is_category "worker_reconciliation" category ≡ false
            ⊎ is_category "tool_selection" category ≡ true)
  unfolding reconcile_unattempted
  unattempted-safe h = ground arith

  unattempted-completed : (reconcile_unattempted category historical s).state ≢ already_completed
  unfolding reconcile_unattempted
  unattempted-completed h = ground arith

-- Why a failed write step may be run again: its contract, and either no required tool was attempted
-- and none is on record, or one was attempted, the verifier does not pass what was executed, and the
-- trace has writes, each of which may be repeated.
pub record MayRetry (verify : Verify) (historical : List (Option String)) (category : Option String)
    (s : Step) : Type 0 where
  pub contract : WriteContract
  pub found : contract_of s ≡ some contract
  pub reason :
      ((nonempty (attempted_required_tools contract (tool_executions s)) ≡ false)
        × (any is_write_name historical ≡ false)
        × (is_category "worker_reconciliation" category ≡ false
            ⊎ is_category "tool_selection" category ≡ true))
      ⊎ ((nonempty (attempted_required_tools contract (tool_executions s)) ≡ true)
          × ((verify (tool_executions s) s.service s.operation).passed ≡ false)
          × (nonempty (attempted_writes (tool_executions s)) ≡ true)
          × (all may_redo (tool_executions s) ≡ true))

-- Why a failed write step counts as done: its contract, a required tool that was attempted, and a
-- verifier that passes what was executed.
pub record IsDone (verify : Verify) (s : Step) : Type 0 where
  pub contract : WriteContract
  pub found : contract_of s ≡ some contract
  pub attempted : nonempty (attempted_required_tools contract (tool_executions s)) ≡ true
  pub passed : (verify (tool_executions s) s.service s.operation).passed ≡ true

module _ (verify : Verify) (category : Option String) (historical : List (Option String)) (s : Step)
    (c : WriteContract) where
  write-attempted :
      nonempty (attempted_required_tools c (tool_executions s)) ≡ true
      → reconcile_write verify category historical s c
        ≡ reconcile_attempted
            (verify (tool_executions s) s.service s.operation)
            (tool_executions s)
            s
  unfolding reconcile_write
  write-attempted h = rw (h, reconcile_write)

  write-unattempted :
      nonempty (attempted_required_tools c (tool_executions s)) ≡ false
      → reconcile_write verify category historical s c ≡ reconcile_unattempted category historical s
  unfolding reconcile_write
  write-unattempted h = rw (h, reconcile_write)

  write-safe :
      contract_of s ≡ some c
      → (reconcile_write verify category historical s c).state ≡ safe_to_retry
      → MayRetry verify historical category s
  write-safe found h =
      elim (Bool-cases (nonempty (attempted_required_tools c (tool_executions s)))) [
        | inl tried ↦
            let (a, b, d) =
              attempted-safe _ _ s
                (sym (ap (λ (d : ReconciliationDecision). d.state) (write-attempted tried)) ∙ h) in
            record { contract = c; found = found; reason = inr (tried, a, b, d) }
        | inr untried ↦
            let (a, b) = unattempted-safe category historical s (
              sym (ap (λ (d : ReconciliationDecision). d.state) (write-unattempted untried)) ∙ h) in
            record { contract = c; found = found; reason = inl (untried, a, b) }
      ]

  write-completed :
      contract_of s ≡ some c
      → (reconcile_write verify category historical s c).state ≡ already_completed
      → IsDone verify s
  write-completed found h =
      elim (Bool-cases (nonempty (attempted_required_tools c (tool_executions s)))) [
        | inl tried ↦ record {
          contract = c;
          found = found;
          attempted = tried;
          passed =
              attempted-completed _ _ s
                (sym (ap (λ (d : ReconciliationDecision). d.state) (write-attempted tried)) ∙ h);
        }
        | inr untried ↦ absurd (
            unattempted-completed category historical s
              (sym (ap (λ (d : ReconciliationDecision). d.state) (write-unattempted untried)) ∙ h))
      ]

module _ (verify : Verify) (mentions : String → String → Bool) (category : Option String)
    (historical : List (Option String)) (s : Step) where
  step-blocked :
      is_chat_misconfigured mentions s ≡ true
      → (reconcile_failed_step verify mentions category historical s).state ≡ manual_required
  unfolding reconcile_failed_step
  step-blocked h = rw (h, reconcile_failed_step) refl

  step-read :
      is_chat_misconfigured mentions s ≡ false
      → s.read_only ≡ true
      → (reconcile_failed_step verify mentions category historical s).state ≡ safe_to_retry
  unfolding reconcile_failed_step
  step-read h r = rw (h, r, reconcile_failed_step) refl

  step-unknown :
      is_chat_misconfigured mentions s ≡ false
      → s.read_only ≡ false
      → contract_of s ≡ none
      → (reconcile_failed_step verify mentions category historical s).state ≡ manual_required
  unfolding reconcile_failed_step
  step-unknown h r e = ground arith

  step-write :
      (c : WriteContract)
      → is_chat_misconfigured mentions s ≡ false
      → s.read_only ≡ false
      → contract_of s ≡ some c
      → reconcile_failed_step verify mentions category historical s
        ≡ reconcile_write verify (category_of s.error_category category) historical s c
  unfolding reconcile_failed_step
  step-write c h r e = simp (h, r, e, reconcile_failed_step)

-- A failed step is declared safe to run again only if it is not a chat step whose error names a
-- missing configuration, and is a read, or a write step with a contract such that either no required
-- tool was attempted, no write tool is on record from earlier attempts and the error is not that of
-- a lost lease; or a required tool was attempted, the verifier does not pass what was executed, and
-- the trace has writes, each of which is of an idempotent tool and failed explicitly.
pub reconcile_failed_step-safe :
    (verify : Verify) (mentions : String → String → Bool) (category : Option String)
    (historical : List (Option String)) (s : Step)
    → (reconcile_failed_step verify mentions category historical s).state ≡ safe_to_retry
    → (is_chat_misconfigured mentions s ≡ false)
      × ((s.read_only ≡ true)
          ⊎ MayRetry verify historical (category_of s.error_category category) s)
reconcile_failed_step-safe verify mentions category historical s h =
    elim (Bool-cases (is_chat_misconfigured mentions s)) [
      | inl chat ↦ cc (step-blocked verify mentions category historical s chat)
      | inr plain ↦ elim (Bool-cases s.read_only) [
        | inl read ↦ (plain, inl read)
        | inr write ↦ elim (Option-cases (contract_of s)) [
          | inl unknown ↦
              cc (step-unknown verify mentions category historical s plain write unknown)
          | inr (c, found) ↦ (
            plain,
            inr (
                write-safe verify _ historical s c found (
                  sym (
                    ap (λ (d : ReconciliationDecision). d.state)
                      (step-write verify mentions category historical s c plain write found))
                  ∙ h)),
          )
        ]
      ]
    ]

-- A failed step is declared already completed only if it is a write step whose contract is known,
-- a required tool of the contract was attempted, and the verifier passes what was executed.
pub reconcile_failed_step-completed :
    (verify : Verify) (mentions : String → String → Bool) (category : Option String)
    (historical : List (Option String)) (s : Step)
    → (reconcile_failed_step verify mentions category historical s).state ≡ already_completed
    → (s.read_only ≡ false) × IsDone verify s
reconcile_failed_step-completed verify mentions category historical s h =
    elim (Bool-cases (is_chat_misconfigured mentions s)) [
      | inl chat ↦ cc (step-blocked verify mentions category historical s chat)
      | inr plain ↦ elim (Bool-cases s.read_only) [
        | inl read ↦ cc (step-read verify mentions category historical s plain read)
        | inr write ↦ elim (Option-cases (contract_of s)) [
          | inl unknown ↦
              cc (step-unknown verify mentions category historical s plain write unknown)
          | inr (c, found) ↦ (
            write,
            write-completed verify _ historical s c found (
                sym (
                  ap (λ (d : ReconciliationDecision). d.state)
                    (step-write verify mentions category historical s c plain write found))
                ∙ h),
          )
        ]
      ]
    ]

-- A decision names the step to resume at exactly when it is not left to a person.
pub reconcile_failed_step-resume :
    (verify : Verify) (mentions : String → String → Bool) (category : Option String)
    (historical : List (Option String)) (s : Step)
    → ((reconcile_failed_step verify mentions category historical s).resume_step_id ≡ none)
      ↔ ((reconcile_failed_step verify mentions category historical s).state ≡ manual_required)
unfolding reconcile_failed_step reconcile_attempted reconcile_unattempted reconcile_write
reconcile_failed_step-resume verify mentions category historical s = ground arith
