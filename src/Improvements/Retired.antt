-- ===== src/Improvements/Retired.antt =====
-- What a refused promotion leaves behind: `_retire_candidate_routing` within `decide_promotion`.
use mathlib.Core.Path.{subst}
use google_connector_app.Prelude.{
  ℕ, true, false, not, ◌||◌, ◌≡◌, refl, some, all, any, arith, any-update_where, all-update_where,
  ◌==◌,
}
use google_connector_app.Runs.{Run}
use google_connector_app.Improvements.{
  Proposal, Canary, Db, Publication, committed, has_canary_id, is_never_started, is_approved,
  proposal_of,
}
use google_connector_app.Improvements.Deciding.{
  ImprovementDecision, Settings, latest_canary, retire_candidate_routing, retire_canary, to_control,
  retired_state,
}
use google_connector_app.Improvements.Lifecycle.Promoting.{promote_committed}
use google_connector_app.Improvements.Activating.{decide_promotion, promotion_decided, promoted}

-- No queued and never started run is left to the candidate, and the canary gets no traffic.
pub record IsRetired (c : Canary) (db : Db) : Type 0 where
  pub no_candidate_run : any (is_never_started db.steps c.id) db.runs ≡ false
  pub no_traffic : all (λ x. not (x.id == c.id) || not x.routing_enabled) db.canaries ≡ true

returned_run :
    (db : Db) (c : Canary) (r : Run)
    → is_never_started db.steps c.id (to_control c.control_version r) ≡ false
returned_run db c r = refl

retire-IsRetired :
    (now : ℕ) (p : Proposal) (okf_state : Publication) (db : Db) (c : Canary)
    → latest_canary p.id db.canaries ≡ some c
    → IsRetired c (retire_candidate_routing now p okf_state db)
unfolding retire_candidate_routing
retire-IsRetired now p okf_state db c e =
    rw (e, retire_candidate_routing)
      (record {
        no_candidate_run =
            any-update_where (is_never_started db.steps c.id) (to_control c.control_version)
              (returned_run db c) db.runs;
        no_traffic =
            all-update_where (has_canary_id c.id) (retire_canary now)
              (λ x. not (x.id == c.id) || not x.routing_enabled) (λ x _. ground arith) db.canaries
              (λ x f. ground arith);
      })

promotion_decided-IsRetired :
    (s : Settings) (body : ImprovementDecision) (p : Proposal) (db : Db) (c : Canary)
    → is_approved body.decision ≡ false
    → latest_canary p.id db.canaries ≡ some c
    → IsRetired c (promotion_decided s body p db)
unfolding promotion_decided
promotion_decided-IsRetired s body p db c other e =
    rw (other, promotion_decided)
      (retire-IsRetired s.now p (retired_state body.decision) (promoted body p db) c e)

-- A promotion that is rejected, or sent back for changes, retires the proposal's latest canary: no
-- queued run that never started stays with the candidate, and the canary gets no more traffic.
pub decide_promotion-IsRetired :
    (s : Settings) (body : ImprovementDecision) (p : Proposal) (c : Canary) (db after : Db)
    → proposal_of body.proposal_key db ≡ some p
    → latest_canary p.id db.canaries ≡ some c
    → is_approved body.decision ≡ false
    → decide_promotion s body db ≡ committed after
    → IsRetired c after
unfolding decide_promotion
decide_promotion-IsRetired s body p c db after found e other h =
    let (_, same) = promote_committed db p s body after (rw (found, decide_promotion) at h) in
    subst (IsRetired c) same (promotion_decided-IsRetired s body p db c other e)
