-- ===== src/Improvements/Lifecycle/Reviewing.antt =====
-- The two reviews keep the invariant: `decide_candidate_okf` and `decide_canary`.
use mathlib.Core.List.{Memᴰ}
use mathlib.Core.Path.{subst}
use google_connector_app.Prelude.{
  true, ◌≡◌, refl, List, [], ◌∷◌, ◌++◌, all, arith, Bool-cases, Option-cases, inl, inr, all-append,
  str_eq, eq→==, any-append_right,
}
use google_connector_app.Improvements.{
  Stage, Verdict, Proposal, Approval, Db, committed, set_proposal, is_approved, is_awaiting_review,
}
use google_connector_app.Improvements.Deciding.{
  ImprovementDecision, Settings, approval_of, decide_candidate_okf_of, decide_canary_of,
  canary_decided, record_okf_decision, review_as, new_canary, reviewed, lacks_note,
  approval_objection, retired_state, latest_canary,
}
use google_connector_app.Improvements.Lifecycle.{
  IsGoverned, is_backed, is_lawful, approves_canary_of,
}
use google_connector_app.Improvements.Lifecycle.Rows.{all-is_backed-append, all-is_lawful-append}
use google_connector_app.Improvements.Lifecycle.Keeping.{
  committed_inv, changed-IsGoverned, own_approval, retire-lawful,
}

module _ (db : Db) (g : IsGoverned db) (body : ImprovementDecision) (p : Proposal)
    (m : Memᴰ p db.proposals) where
  okf_backed :
      (approvals : List Approval) (v : Verdict)
      → is_awaiting_review p.status ≡ true
      → is_backed approvals (record_okf_decision v p) ≡ true
  okf_backed approvals v w = ground arith

  okf_committed :
      (after : Db)
      → decide_candidate_okf_of body p db ≡ committed after
      → (is_awaiting_review p.status ≡ true)
        × (after.proposals ≡ set_proposal p.id (record_okf_decision body.decision) db.proposals)
        × (after.approvals ≡ db.approvals ++ approval_of Stage.okf_publication p body ∷ [])
        × (after.canaries ≡ db.canaries)
  unfolding decide_candidate_okf_of
  okf_committed after h = ground arith

  pub okf-IsGoverned :
      (after : Db) → decide_candidate_okf_of body p db ≡ committed after → IsGoverned after
  okf-IsGoverned after h =
      let added = approval_of Stage.okf_publication p body ∷ [] in
      let (w, ps, added_row, cs) = okf_committed after h in
      changed-IsGoverned db after p (record_okf_decision body.decision) g m (λ x. refl) ps
        (rw added_row (all-is_backed-append db.approvals added db.proposals g.backed))
        (okf_backed after.approvals body.decision w)
        (rw (added_row, cs) (all-is_lawful-append db.approvals added db.canaries g.lawful))

  reviewed_backed :
      str_eq p.content_hash body.proposal_hash ≡ true
      → is_backed (db.approvals ++ approval_of Stage.canary p body ∷ []) (review_as body.decision p)
        ≡ true
  reviewed_backed h =
      ground (
        arith,
        own_approval Stage.canary p (review_as body.decision p) body db.approvals refl refl h,
      )

  new_lawful :
      (s : Settings)
      → is_approved body.decision ≡ true
      → is_lawful
          (db.approvals ++ approval_of Stage.canary p body ∷ [])
          (new_canary s p db.canaries)
        ≡ true
  new_lawful s ok =
      let same = eq→== p.id p.id refl in
      any-append_right (approves_canary_of p.id) db.approvals (approval_of Stage.canary p body ∷ [])
        (ground arith)

  canaries_lawful :
      (s : Settings)
      → all
          (is_lawful (db.approvals ++ approval_of Stage.canary p body ∷ []))
          (canary_decided s body p db).canaries
        ≡ true
  unfolding canary_decided
  canaries_lawful s =
      let added = approval_of Stage.canary p body ∷ [] in
      let old = all-is_lawful-append db.approvals added db.canaries g.lawful in
      elim (Bool-cases (is_approved body.decision)) [
        | inl ok ↦ rw ok (
            all-append (is_lawful (db.approvals ++ added)) db.canaries
              (new_canary s p db.canaries ∷ []) old (rw (new_lawful s ok) refl))
        | inr other ↦ rw other (
            retire-lawful (db.approvals ++ added) s.now p (retired_state body.decision)
              (reviewed body p db) old)
      ]

  review_committed :
      (s : Settings) (after : Db)
      → decide_canary_of s body p db ≡ committed after
      → (str_eq p.content_hash body.proposal_hash ≡ true) × (canary_decided s body p db ≡ after)
  unfolding decide_canary_of
  review_committed s after h =
      let (_, hash, _, e) =
        committed_inv (is_awaiting_review p.status) (str_eq p.content_hash body.proposal_hash)
          (lacks_note body) (approval_objection s body p db) (canary_decided s body p db) _ _ _ _
          h in
      (hash, e)

  decided_proposals :
      (s : Settings)
      → (canary_decided s body p db).proposals
        ≡ set_proposal p.id (review_as body.decision) db.proposals
  unfolding canary_decided
  decided_proposals s = ground (arith, Option-cases (latest_canary p.id db.canaries))

  decided_approvals :
      (s : Settings)
      → (canary_decided s body p db).approvals
        ≡ db.approvals ++ approval_of Stage.canary p body ∷ []
  unfolding canary_decided
  decided_approvals s = ground (arith, Option-cases (latest_canary p.id db.canaries))

  pub review-IsGoverned :
      (s : Settings) (after : Db)
      → decide_canary_of s body p db ≡ committed after
      → IsGoverned after
  review-IsGoverned s after h =
      let added = approval_of Stage.canary p body ∷ [] in
      let (hash, e) = review_committed s after h in
      subst IsGoverned e (
        changed-IsGoverned db (canary_decided s body p db) p (review_as body.decision) g m
          (λ x. refl) (decided_proposals s)
          (rw (decided_approvals s) (all-is_backed-append db.approvals added db.proposals g.backed))
          (rw (decided_approvals s) (reviewed_backed hash))
          (rw (decided_approvals s) (canaries_lawful s)))
