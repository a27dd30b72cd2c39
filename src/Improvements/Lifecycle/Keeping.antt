-- ===== src/Improvements/Lifecycle/Keeping.antt =====
-- What a handler's transaction has to show to keep the invariant: one proposal takes a new value that
-- its approvals back, and the canaries stay lawful.
use mathlib.Core.List.{Memᴰ}
use google_connector_app.Prelude.{
  ℕ, String, Bool, true, false, not, ◌≡◌, refl, sym, ap, ◌∙◌, str_eq→eq, eq→str_eq, Option, none,
  some, List, [], ◌∷◌, ◌++◌, all, any, arith, Option-cases, inl, inr, if◌then◌else◌,
  all-update_where_keeps, any-append_right, str_eq, ◌==◌,
}
use google_connector_app.Improvements.{
  Publication, Stage, Proposal, Approval, Db, Refusal, refused, committed, has_id, set_proposal,
  has_canary_id, is_approved,
}
use google_connector_app.Improvements.Deciding.{
  ImprovementDecision, retire_candidate_routing, retire_canary, latest_canary, approval_of,
}
use google_connector_app.Improvements.Lifecycle.{
  IsGoverned, is_stage, is_backed, is_lawful, approves,
}
use google_connector_app.Improvements.Lifecycle.Rows.{all-set_proposal, count-update_where_same}

-- A handler that commits has passed its two guards and met no objection.
pub committed_inv :
    (a b c : Bool) (o : Option String) (x : Db) (q r s : Refusal) (f : String → Refusal)
    {after : Db}
    → (if not a then refused q else if not b then refused r else elim o [
      | some reason ↦ refused (f reason)
      | none ↦ if c then refused s else committed x
    ])
      ≡ committed after
    → (a ≡ true) × (b ≡ true) × (o ≡ none) × (x ≡ after)
committed_inv false b c o x q r s f h = cc
committed_inv true false c o x q r s f h = cc
committed_inv true true c (some reason) x q r s f h = cc
committed_inv true true true none x q r s f h = cc
committed_inv true true false none x q r s f h = (refl, refl, refl, cc)

pub changed-IsGoverned :
    (db after : Db) (p : Proposal) (f : Proposal → Proposal)
    → IsGoverned db
    → Memᴰ p db.proposals
    → ((x : Proposal) → (f x).id ≡ x.id)
    → after.proposals ≡ set_proposal p.id f db.proposals
    → all (is_backed after.approvals) db.proposals ≡ true
    → is_backed after.approvals (f p) ≡ true
    → all (is_lawful after.approvals) after.canaries ≡ true
    → IsGoverned after
changed-IsGoverned db after p f g m same e old new lawful = record {
  unique = λ id.
      rw
        (
          e,
          count-update_where_same (has_id p.id) (has_id id) f
              (λ x. ap (λ (i : ℕ). i == id) (same x)) db.proposals,
        )
        (g.unique id);
  backed = rw e (all-set_proposal (is_backed after.approvals) f db.proposals p g.unique m old new);
  lawful = lawful;
}

is_stage_refl : (stage : Stage) → is_stage stage stage ≡ true
is_stage_refl Stage.okf_publication = refl
is_stage_refl Stage.canary = refl
is_stage_refl Stage.promotion = refl

pub own_approval :
    (stage : Stage) (p q : Proposal) (body : ImprovementDecision) (approvals : List Approval)
    → q.id ≡ p.id
    → q.content_hash ≡ p.content_hash
    → str_eq p.content_hash body.proposal_hash ≡ true
    → is_approved body.decision ≡ true
    → any (approves stage q) (approvals ++ approval_of stage p body ∷ []) ≡ true
own_approval stage p q body approvals i h same ok =
    let shown : p.content_hash ≡ body.proposal_hash = str_eq→eq _ _ same in
    let bound : str_eq body.proposal_hash q.content_hash ≡ true =
      eq→str_eq _ _ (sym shown ∙ sym h) in
    let kind : is_stage stage stage ≡ true = is_stage_refl stage in
    any-append_right (approves stage q) approvals (approval_of stage p body ∷ []) (ground arith)

pub retire-lawful :
    (approvals : List Approval) (now : ℕ) (p : Proposal) (okf_state : Publication) (db : Db)
    → all (is_lawful approvals) db.canaries ≡ true
    → all (is_lawful approvals) (retire_candidate_routing now p okf_state db).canaries ≡ true
unfolding retire_candidate_routing
retire-lawful approvals now p okf_state db h =
    elim (Option-cases (latest_canary p.id db.canaries)) [
      | inl e ↦ rw e h
      | inr (c, e) ↦ rw e (
          all-update_where_keeps (has_canary_id c.id) (retire_canary now) (is_lawful approvals)
            (λ x _ t. ground arith) db.canaries h)
    ]
