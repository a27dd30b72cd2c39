-- ===== src/Improvements/Lifecycle/Reporting.antt =====
-- What is reported of a candidate keeps the invariant: its registration, its deployment, and its
-- production.
use mathlib.Core.List.{Memᴰ}
use google_connector_app.Prelude.{
  ℕ, String, true, ◌≡◌, refl, sym, Option, none, some, all, arith, str_eq→eq, eq→str_eq, all-mem,
  all-update_where_keeps,
}
use google_connector_app.Improvements.{
  Proposal, Canary, Db, committed, set_proposal, has_canary_id, same_version,
}
use google_connector_app.Improvements.Deciding.{given}
use google_connector_app.Improvements.Attesting.{
  Registration, ProductionAttestation, register, with_evidence, evidence_of, publish, close_routing,
  published, trust_bundle, publish_with, is_promoted_at,
}
use google_connector_app.Improvements.Lifecycle.{IsGoverned, is_backed, is_lawful}
use google_connector_app.Improvements.Lifecycle.Keeping.{changed-IsGoverned}

same_version_sym :
    (a : Option String) (v : String)
    → same_version a (some v) ≡ true
    → same_version (some v) a ≡ true
same_version_sym none v h = h
same_version_sym (some a) v h = eq→str_eq v a (sym (str_eq→eq a v h))

module _ (db : Db) (g : IsGoverned db) (p : Proposal) (m : Memᴰ p db.proposals) where
  row_backed : is_backed db.approvals p ≡ true
  row_backed = all-mem (is_backed db.approvals) db.proposals p g.backed m

  pub register-IsGoverned :
      (body : Registration)
      → IsGoverned (record db { proposals = set_proposal p.id (register body) db.proposals })
  register-IsGoverned body =
      changed-IsGoverned db _ p (register body) g m (λ x. refl) refl g.backed refl g.lawful

  evidence_backed :
      (version : String) (identity : Option String)
      → same_version p.candidate_version (some version) ≡ true
      → is_backed db.approvals (with_evidence (evidence_of version identity) p) ≡ true
  evidence_backed version identity h =
      let shown = same_version_sym p.candidate_version version h in ground (arith, row_backed)

  pub evidence-IsGoverned :
      (version : String) (identity : Option String)
      → same_version p.candidate_version (some version) ≡ true
      → IsGoverned (record db {
        proposals = set_proposal p.id (with_evidence (evidence_of version identity)) db.proposals;
      })
  evidence-IsGoverned version identity h =
      changed-IsGoverned db _ p (with_evidence (evidence_of version identity)) g m (λ x. refl) refl
        g.backed (evidence_backed version identity h) g.lawful

  module _ (now : ℕ) (body : ProductionAttestation) where
    trusted :
        (hash : Option String) (x after : Db)
        → trust_bundle hash x ≡ committed after
        → (after.proposals ≡ x.proposals)
          × (after.approvals ≡ x.approvals)
          × (after.canaries ≡ x.canaries)
    unfolding trust_bundle
    trusted hash x after h = ground arith

    published_backed :
        is_promoted_at body.production_commit p ≡ true → is_backed db.approvals (publish p) ≡ true
    published_backed h = ground (arith, row_backed)

    closed_lawful :
        (c : Canary) → all (is_lawful db.approvals) (published now body p c db).canaries ≡ true
    closed_lawful c =
        all-update_where_keeps (has_canary_id c.id) (close_routing now) (is_lawful db.approvals)
          (λ x _ t. ground arith) db.canaries g.lawful

    pub publish-IsGoverned :
        (found : Option Canary) (after : Db)
        → is_promoted_at body.production_commit p ≡ true
        → publish_with now body p found db ≡ committed after
        → IsGoverned after
    unfolding publish_with
    publish-IsGoverned none after t h = cc
    publish-IsGoverned (some c) after t h =
        let kept : trust_bundle (given p.manifest.okf_bundle_hash) (published now body p c db)
            ≡ committed after =
          ground arith in
        let (ps, rows, cs) = trusted (given p.manifest.okf_bundle_hash) _ after kept in
        changed-IsGoverned db after p publish g m (λ x. refl) ps (rw rows g.backed)
          (rw rows (published_backed t)) (rw (rows, cs) (closed_lawful c))
