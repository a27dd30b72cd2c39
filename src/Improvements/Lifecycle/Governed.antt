-- ===== src/Improvements/Lifecycle/Governed.antt =====
-- Every step keeps the invariant, so every reachable state has it.
use mathlib.Core.List.{Memᴰ}
use mathlib.Core.Path.{subst}
use google_connector_app.Prelude.{
  ℕ, String, Bool, true, false, ◌≡◌, refl, ap, Option, none, some, all, find, arith, Bool-cases,
  Option-cases, inl, inr, find-mem, update_where, ◌==◌, all-update_where_keeps,
}
use google_connector_app.Improvements.{
  Proposal, ProposalStatus, Canary, Db, Outcome, Refusal, committed, refused, has_key, has_id,
  is_approved, same_version, proposal_of, set_proposal, has_canary_id,
}
use google_connector_app.Improvements.Deciding.{
  ImprovementDecision, CanaryActivationDecision, Settings, decide_candidate_okf,
  decide_candidate_okf_of, decide_canary, decide_canary_of, latest_canary,
}
use google_connector_app.Improvements.Activating.{
  activate_canary, activate_canary_of, decide_promotion, decide_promotion_of, record_publication,
}
use google_connector_app.Improvements.Attesting.{
  Registration, DeploymentEvidence, DeploymentAttestation, ProductionAttestation,
  register_improvement_candidate, register_candidate_deployment, attest_candidate_deployment,
  attestation_objection, attest_promoted_production, is_promoted_at, publish_with, register,
  with_evidence, evidence_of,
}
use google_connector_app.Improvements.Measuring.{
  Telemetry, evaluate_canary, expire_stale_proposals, is_running_canary, is_stale, expire, conclude,
  concluded_as, conclude_canary, assessment_of,
}
use google_connector_app.Improvements.Lifecycle.{Step, Reach, IsGoverned, is_backed, is_lawful}
use google_connector_app.Improvements.Lifecycle.Rows.{count-update_where_same}
use google_connector_app.Improvements.Lifecycle.Reviewing.{okf-IsGoverned, review-IsGoverned}
use google_connector_app.Improvements.Lifecycle.Promoting.{
  activate-IsGoverned, promote-IsGoverned, merge-IsGoverned,
}
use google_connector_app.Improvements.Lifecycle.Reporting.{
  register-IsGoverned, evidence-IsGoverned, publish-IsGoverned,
}

-- An update that leaves ids alone and after which no claim is made of the rows it touches.
unclaimed :
    (db after : Db) (t : Proposal → Bool) (f : Proposal → Proposal)
    → IsGoverned db
    → ((x : Proposal) → (f x).id ≡ x.id)
    → ((x : Proposal) → is_backed db.approvals (f x) ≡ true)
    → after.proposals ≡ update_where t f db.proposals
    → after.approvals ≡ db.approvals
    → all (is_lawful db.approvals) after.canaries ≡ true
    → IsGoverned after
unclaimed db after t f g same free ps rows lawful = record {
  unique = λ id.
      rw
        (
          ps,
          count-update_where_same t (has_id id) f (λ x. ap (λ (i : ℕ). i == id) (same x))
              db.proposals,
        )
        (g.unique id);
  backed =
      rw (ps, rows)
        (all-update_where_keeps t f (is_backed db.approvals) (λ x _ _. free x) db.proposals
          g.backed);
  lawful = rw rows lawful;
}

module _ (telemetry : Telemetry) (db : Db) (g : IsGoverned db) where
  concluded-IsGoverned :
      (now : ℕ) (passed : Bool) (c : Canary) → IsGoverned (conclude_canary now passed c db)
  concluded-IsGoverned now true c =
      unclaimed db _ (has_id c.proposal_id) (concluded_as true) g (λ x. refl) (λ x. refl) refl refl
        (all-update_where_keeps (has_canary_id c.id) (conclude now true) (is_lawful db.approvals)
          (λ x _ t. ground arith) db.canaries g.lawful)
  concluded-IsGoverned now false c =
      unclaimed db _ (has_id c.proposal_id) (concluded_as false) g (λ x. refl) (λ x. refl) refl refl
        (all-update_where_keeps (has_canary_id c.id) (conclude now false) (is_lawful db.approvals)
          (λ x _ t. ground arith) db.canaries g.lawful)

  evaluate-IsGoverned : (now id : ℕ) → IsGoverned (evaluate_canary telemetry now id db)
  unfolding evaluate_canary
  evaluate-IsGoverned now id = elim (Option-cases (find (is_running_canary id) db.canaries)) [
    | inl e ↦ rw (e, evaluate_canary) g
    | inr (c, e) ↦
        rw (e, evaluate_canary)
          (elim (Bool-cases (assessment_of telemetry c db.runs).ready) [
            | inl r ↦ rw r (concluded-IsGoverned now (assessment_of telemetry c db.runs).passed c)
            | inr r ↦ rw r g
          ])
  ]

  expire-IsGoverned : (now : ℕ) → IsGoverned (expire_stale_proposals now db)
  unfolding expire_stale_proposals
  expire-IsGoverned now =
      unclaimed db _ (is_stale now) expire g (λ x. refl) (λ x. refl) refl refl g.lawful

  -- A handler that reads its proposal by key, and refuses without one.
  by_key :
      (key : String) (r : Refusal) (handle : Proposal → Outcome) (after : Db)
      → elim (proposal_of key db) [ none ↦ refused r | some p ↦ handle p ] ≡ committed after
      → (p : Proposal) × Memᴰ p db.proposals × (handle p ≡ committed after)
  by_key key r handle after h = elim (Option-cases (proposal_of key db)) [
    | inl e ↦ absurd (let k = rw e at h in cc)
    | inr (p, e) ↦ (p, (find-mem (has_key key) db.proposals p e).0, rw e at h)
  ]

  register_step :
      (body : Registration) (after : Db)
      → register_improvement_candidate body db ≡ committed after
      → IsGoverned after
  unfolding register_improvement_candidate
  register_step body after h = elim (Option-cases (proposal_of body.proposal_key db)) [
    | inl e ↦ absurd (ground arith)
    | inr (p, e) ↦
        let made : record db { proposals = set_proposal p.id (register body) db.proposals }
            ≡ after =
          ground arith in
        subst IsGoverned made (
          register-IsGoverned db g p (find-mem (has_key body.proposal_key) db.proposals p e).0 body)
  ]

  deploy_step :
      (body : DeploymentEvidence) (after : Db)
      → register_candidate_deployment body db ≡ committed after
      → IsGoverned after
  unfolding register_candidate_deployment
  deploy_step body after h = elim (Option-cases (proposal_of body.proposal_key db)) [
    | inl e ↦ absurd (ground arith)
    | inr (p, e) ↦
        let version : same_version p.candidate_version (some body.candidate_version) ≡ true =
          ground arith in
        let made : record db {
          proposals =
              set_proposal p.id (with_evidence (evidence_of body.candidate_version none))
                db.proposals;
        }
            ≡ after =
          ground arith in
        subst IsGoverned made (
          evidence-IsGoverned db g p (find-mem (has_key body.proposal_key) db.proposals p e).0
            body.candidate_version none version)
  ]

  objection_version :
      (body : DeploymentAttestation) (p : Proposal)
      → attestation_objection body p ≡ none
      → same_version p.candidate_version (some body.candidate_version) ≡ true
  unfolding attestation_objection
  objection_version body p h = ground arith

  attest_step :
      (body : DeploymentAttestation) (after : Db)
      → attest_candidate_deployment body db ≡ committed after
      → IsGoverned after
  unfolding attest_candidate_deployment
  attest_step body after h = elim (Option-cases (proposal_of body.proposal_key db)) [
    | inl e ↦ absurd (ground arith)
    | inr (p, e) ↦ elim (Option-cases (attestation_objection body p)) [
      | inr (r, o) ↦ absurd (ground arith)
      | inl o ↦
          let made : record db {
            proposals =
                set_proposal p.id
                  (with_evidence (evidence_of body.candidate_version (some body.trusted_identity)))
                  db.proposals;
          }
              ≡ after =
            ground arith in
          subst IsGoverned made (
            evidence-IsGoverned db g p (find-mem (has_key body.proposal_key) db.proposals p e).0
              body.candidate_version (some body.trusted_identity) (objection_version body p o))
    ]
  ]

  publish_step :
      (now : ℕ) (body : ProductionAttestation) (after : Db)
      → attest_promoted_production now body db ≡ committed after
      → IsGoverned after
  unfolding attest_promoted_production
  publish_step now body after h =
      elim (Option-cases (find (is_promoted_at body.production_commit) db.proposals)) [
        | inl e ↦ let same : db ≡ after = ground arith in subst IsGoverned same g
        | inr (p, e) ↦
            let (m, t) = find-mem (is_promoted_at body.production_commit) db.proposals p e in
            let kept : publish_with now body p (latest_canary p.id db.canaries) db
                ≡ committed after =
              ground arith in
            publish-IsGoverned db g p m now body (latest_canary p.id db.canaries) after t kept
      ]

  okf_step :
      (body : ImprovementDecision) (after : Db)
      → decide_candidate_okf body db ≡ committed after
      → IsGoverned after
  unfolding decide_candidate_okf
  okf_step body after h =
      let (p, m, k) = by_key body.proposal_key _ (λ p. decide_candidate_okf_of body p db) after h in
      okf-IsGoverned db g body p m after k

  review_step :
      (s : Settings) (body : ImprovementDecision) (after : Db)
      → decide_canary s body db ≡ committed after
      → IsGoverned after
  unfolding decide_canary
  review_step s body after h =
      let (p, m, k) = by_key body.proposal_key _ (λ p. decide_canary_of s body p db) after h in
      review-IsGoverned db g body p m s after k

  activate_step :
      (now : ℕ) (body : CanaryActivationDecision) (after : Db)
      → activate_canary now body db ≡ committed after
      → IsGoverned after
  unfolding activate_canary
  activate_step now body after h = elim (Bool-cases (is_approved body.decision)) [
    | inl ok ↦
        let (p, m, k) =
          by_key body.proposal_key _ (λ p. activate_canary_of now body p db) after (rw ok at h) in
        activate-IsGoverned db g p m now body after k
    | inr other ↦ absurd (let k = rw other at h in cc)
  ]

  promote_step :
      (s : Settings) (body : ImprovementDecision) (after : Db)
      → decide_promotion s body db ≡ committed after
      → IsGoverned after
  unfolding decide_promotion
  promote_step s body after h =
      let (p, m, k) = by_key body.proposal_key _ (λ p. decide_promotion_of s body p db) after h in
      promote-IsGoverned db g p m s body after k

  merge_step :
      (p : Proposal) (commit : Option String)
      → find (has_id p.id) db.proposals ≡ some p
      → p.status ≡ ProposalStatus.approved_for_publication
      → IsGoverned (record_publication p.id commit db)
  unfolding record_publication
  merge_step p none e w = g
  merge_step p (some commit) e w =
      merge-IsGoverned db g p (find-mem (has_id p.id) db.proposals p e).0 commit w

module _ (telemetry : Telemetry) where
  Step-IsGoverned : {db after : Db} → Step telemetry db after → IsGoverned db → IsGoverned after
  Step-IsGoverned {db} {after} (Step.review_okf body h) g = okf_step telemetry db g body after h
  Step-IsGoverned {db} {after} (Step.review s body h) g = review_step telemetry db g s body after h
  Step-IsGoverned {db} {after} (Step.activate now body h) g =
      activate_step telemetry db g now body after h
  Step-IsGoverned {db} {after} (Step.promote s body h) g =
      promote_step telemetry db g s body after h
  Step-IsGoverned {db} (Step.merge p commit e w) g = merge_step telemetry db g p commit e w
  Step-IsGoverned {db} {after} (Step.register body h) g = register_step telemetry db g body after h
  Step-IsGoverned {db} {after} (Step.deploy body h) g = deploy_step telemetry db g body after h
  Step-IsGoverned {db} {after} (Step.attest body h) g = attest_step telemetry db g body after h
  Step-IsGoverned {db} {after} (Step.publish now body h) g =
      publish_step telemetry db g now body after h
  Step-IsGoverned {db} (Step.evaluate now id) g = evaluate-IsGoverned telemetry db g now id
  Step-IsGoverned {db} (Step.expire now) g = expire-IsGoverned telemetry db g now

  -- Whatever the reviews, the activation, the promotion and its merge, the registration of a
  -- candidate, its deployment and production attestations, the evaluation of a canary and the expiry
  -- commit, in any order and any number: from tables with the invariant they reach only tables with
  -- it. Ids of proposals are unique; a proposal that is cleared for a canary or has one active has a
  -- human canary approval of its current content, an active one has verified evidence of its current
  -- version, one that is approved for publication, pending in production or published has a human
  -- promotion approval of its current content, and a canary receives traffic only while it is active
  -- or passed, and exists only where its proposal was approved for one.
  pub Reach-IsGoverned :
      {db after : Db} → IsGoverned db → Reach telemetry db after → IsGoverned after
  Reach-IsGoverned g Reach.here = g
  Reach-IsGoverned g (Reach.next r s) = Step-IsGoverned s (Reach-IsGoverned g r)
