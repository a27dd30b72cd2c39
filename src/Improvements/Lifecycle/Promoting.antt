-- ===== src/Improvements/Lifecycle/Promoting.antt =====
-- The activation of a canary and the decision on its promotion keep the invariant.
use mathlib.Core.List.{Memᴰ}
use mathlib.Core.Path.{subst}
use google_connector_app.Prelude.{
  ℕ, String, true, ◌≡◌, refl, Option, none, some, [], ◌∷◌, ◌++◌, all, arith, Bool-cases,
  Option-cases, inl, inr, str_eq, all-mem, all-update_where_keeps,
}
use google_connector_app.Improvements.{
  Stage, Proposal, ProposalStatus, Canary, Db, committed, set_proposal, has_canary_id, is_approved,
  is_approved_for_canary, is_awaiting_promotion,
}
use google_connector_app.Improvements.Deciding.{
  ImprovementDecision, CanaryActivationDecision, Settings, approval_of, given, latest_canary,
  retired_state,
}
use google_connector_app.Improvements.Activating.{
  activate, deploy, activated, stage_bundle, evidence_objection, activate_with, activate_canary_of,
  pending_canary, promote_as, promoted, promotion_decided, decide_promotion_of, objection, merge_as,
}
use google_connector_app.Improvements.Lifecycle.{IsGoverned, is_backed, is_lawful}
use google_connector_app.Improvements.Lifecycle.Rows.{all-is_backed-append, all-is_lawful-append}
use google_connector_app.Improvements.Lifecycle.Keeping.{
  changed-IsGoverned, own_approval, retire-lawful,
}

pub promote_committed :
    (db : Db) (p : Proposal) (s : Settings) (body : ImprovementDecision) (after : Db)
    → decide_promotion_of s body p db ≡ committed after
    → (str_eq p.content_hash body.proposal_hash ≡ true) × (promotion_decided s body p db ≡ after)
unfolding decide_promotion_of
promote_committed db p s body after h = elim (Bool-cases (is_awaiting_promotion p.status)) [
  | inl w ↦ elim (Bool-cases (str_eq p.content_hash body.proposal_hash)) [
    | inl t ↦ elim (Option-cases (objection body p db)) [
      | inl e ↦ (t, let k = rw (w, t, e) at h in cc)
      | inr (r, e) ↦ absurd (let k = rw (w, t, e) at h in cc)
    ]
    | inr f ↦ absurd (let k = rw (w, f) at h in cc)
  ]
  | inr f ↦ absurd (let k = rw f at h in cc)
]

module _ (db : Db) (g : IsGoverned db) (p : Proposal) (m : Memᴰ p db.proposals) where
  row_backed : is_backed db.approvals p ≡ true
  row_backed = all-mem (is_backed db.approvals) db.proposals p g.backed m

  deployed_backed :
      is_approved_for_canary p.status ≡ true
      → evidence_objection p ≡ none
      → is_backed db.approvals (deploy p) ≡ true
  unfolding evidence_objection
  deployed_backed w e = ground (arith, row_backed)

  module _ (now : ℕ) (body : CanaryActivationDecision) where
    stage_committed :
        (hash : Option String) (x after : Db)
        → stage_bundle hash x ≡ committed after
        → (after.proposals ≡ x.proposals)
          × (after.approvals ≡ x.approvals)
          × (after.canaries ≡ x.canaries)
    unfolding stage_bundle
    stage_committed hash x after h = ground arith

    activate_committed :
        (after : Db)
        → activate_canary_of now body p db ≡ committed after
        → (is_approved_for_canary p.status ≡ true)
          × (evidence_objection p ≡ none)
          × (activate_with now body p (pending_canary p.id db.canaries) db ≡ committed after)
    unfolding activate_canary_of
    activate_committed after h = elim (Bool-cases (is_approved_for_canary p.status)) [
      | inl w ↦ elim (Bool-cases (str_eq p.content_hash body.proposal_hash)) [
        | inl t ↦ elim (Option-cases (evidence_objection p)) [
          | inl e ↦ (w, e, rw (w, t, e) at h)
          | inr (r, e) ↦ absurd (let k = rw (w, t, e) at h in cc)
        ]
        | inr f ↦ absurd (let k = rw (w, f) at h in cc)
      ]
      | inr f ↦ absurd (let k = rw f at h in cc)
    ]

    routed_lawful :
        (c : Canary) → all (is_lawful db.approvals) (activated now body p c db).canaries ≡ true
    routed_lawful c =
        all-update_where_keeps (has_canary_id c.id) (activate now body) (is_lawful db.approvals)
          (λ x _ t. ground arith) db.canaries g.lawful

    activated-IsGoverned :
        (found : Option Canary) (after : Db)
        → is_approved_for_canary p.status ≡ true
        → evidence_objection p ≡ none
        → activate_with now body p found db ≡ committed after
        → IsGoverned after
    unfolding activate_with
    activated-IsGoverned none after w e h = cc
    activated-IsGoverned (some c) after w e h =
        let (ps, rows, cs) = stage_committed (given p.manifest.okf_bundle_hash) _ after h in
        changed-IsGoverned db after p deploy g m (λ x. refl) ps (rw rows g.backed)
          (rw rows (deployed_backed w e)) (rw (rows, cs) (routed_lawful c))

    pub activate-IsGoverned :
        (after : Db) → activate_canary_of now body p db ≡ committed after → IsGoverned after
    activate-IsGoverned after h =
        let (w, e, k) = activate_committed after h in
        activated-IsGoverned (pending_canary p.id db.canaries) after w e k

  module _ (s : Settings) (body : ImprovementDecision) where
    decided_proposals :
        (promotion_decided s body p db).proposals
        ≡ set_proposal p.id (promote_as body.decision) db.proposals
    unfolding promotion_decided
    decided_proposals = ground (arith, Option-cases (latest_canary p.id db.canaries))

    decided_approvals :
        (promotion_decided s body p db).approvals
        ≡ db.approvals ++ approval_of Stage.promotion p body ∷ []
    unfolding promotion_decided
    decided_approvals = ground (arith, Option-cases (latest_canary p.id db.canaries))

    promoted_backed :
        str_eq p.content_hash body.proposal_hash ≡ true
        → is_backed
            (db.approvals ++ approval_of Stage.promotion p body ∷ [])
            (promote_as body.decision p)
          ≡ true
    promoted_backed h = ground (
      arith,
      own_approval Stage.promotion p (promote_as body.decision p) body db.approvals refl refl h,
    )

    canaries_lawful :
        all
          (is_lawful (db.approvals ++ approval_of Stage.promotion p body ∷ []))
          (promotion_decided s body p db).canaries
        ≡ true
    unfolding promotion_decided
    canaries_lawful =
        let added = approval_of Stage.promotion p body ∷ [] in
        let old = all-is_lawful-append db.approvals added db.canaries g.lawful in
        elim (Bool-cases (is_approved body.decision)) [
          | inl ok ↦ rw ok old
          | inr other ↦ rw other (
              retire-lawful (db.approvals ++ added) s.now p (retired_state body.decision)
                (promoted body p db) old)
        ]

    pub promote-IsGoverned :
        (after : Db) → decide_promotion_of s body p db ≡ committed after → IsGoverned after
    promote-IsGoverned after h =
        let added = approval_of Stage.promotion p body ∷ [] in
        let (hash, e) = promote_committed db p s body after h in
        subst IsGoverned e (
          changed-IsGoverned db (promotion_decided s body p db) p (promote_as body.decision) g m
            (λ x. refl) decided_proposals
            (rw decided_approvals (all-is_backed-append db.approvals added db.proposals g.backed))
            (rw decided_approvals (promoted_backed hash)) (rw decided_approvals canaries_lawful))

  merged_backed :
      (commit : String)
      → p.status ≡ ProposalStatus.approved_for_publication
      → is_backed db.approvals (merge_as commit p) ≡ true
  merged_backed commit w = ground (arith, row_backed)

  pub merge-IsGoverned :
      (commit : String)
      → p.status ≡ ProposalStatus.approved_for_publication
      → IsGoverned (record db { proposals = set_proposal p.id (merge_as commit) db.proposals })
  merge-IsGoverned commit w =
      changed-IsGoverned db _ p (merge_as commit) g m (λ x. refl) refl g.backed
        (merged_backed commit w) g.lawful
