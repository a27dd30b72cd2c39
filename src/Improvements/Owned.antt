-- ===== src/Improvements/Owned.antt =====
-- Which proposal owns the one isolated canary runtime for code.
use mathlib.Core.List.{Memᴰ}
use mathlib.Core.Path.{subst}
use google_connector_app.Prelude.{
  ◌⊎◌, ℕ, Bool, true, ◌≡◌, ◌≢◌, refl, sym, ap, Option, none, some, List, [], ◌∷◌, any, find, arith,
  Bool-cases, Option-cases, inl, inr, mem→any, find-mem, update_where, str_eq, eq→==,
}
use google_connector_app.Improvements.{
  Proposal, Canary, Db, committed, proposal_of, is_code, is_passed, is_pending, is_approved,
  is_awaiting_review, is_of_proposal, has_id, has_canary_id, set_proposal,
}
use google_connector_app.Improvements.Deciding.{
  ImprovementDecision, Settings, decide_canary, decide_canary_of, canary_objection, competes_with,
  is_later, is_code_proposal, approval_objection, latest_canary, lacks_note, canary_decided,
}
use google_connector_app.Improvements.Lifecycle.Keeping.{committed_inv}
use google_connector_app.Improvements.Surfaces.{unsupported_candidate_surfaces-none}
use google_connector_app.Improvements.Attesting.{
  ProductionAttestation, attest_promoted_production, is_promoted_at, publish_with, trust_bundle,
  publish, close_routing,
}
use google_connector_app.Improvements.Measuring.{expire_stale_proposals, is_stale, expire}

objection-owned :
    (s : Settings) (p : Proposal) (db : Db)
    → is_code p.candidate_kind ≡ true
    → any (competes_with p.id db.proposals) db.canaries ≡ true
    → canary_objection s p db ≢ none
unfolding canary_objection
objection-owned s p db k owned h = ground (arith, unsupported_candidate_surfaces-none p.file_paths)

-- Where a canary of another code proposal is pending, active or passed, no code candidate is approved.
pub decide_canary-owned :
    (s : Settings) (body : ImprovementDecision) (p : Proposal) (c : Canary) (db after : Db)
    → proposal_of body.proposal_key db ≡ some p
    → is_code p.candidate_kind ≡ true
    → is_approved body.decision ≡ true
    → Memᴰ c db.canaries
    → competes_with p.id db.proposals c ≡ true
    → decide_canary s body db ≢ committed after
unfolding decide_canary decide_canary_of
decide_canary-owned s body p c db after found k ok m t h =
    let owned = mem→any (competes_with p.id db.proposals) db.canaries c m t in
    let (_, _, o, _) =
      committed_inv (is_awaiting_review p.status) (str_eq p.content_hash body.proposal_hash)
        (lacks_note body) (approval_objection s body p db) (canary_decided s body p db) _ _ _ _
        (rw (found, decide_canary) at h) in
    objection-owned s p db k owned (rw ok at o)

latest_of_two :
    (id : ℕ) (x : Canary) (xs : List Canary) (b c : Canary)
    → is_of_proposal id x ≡ true
    → latest_canary id xs ≡ some b
    → latest_canary id (x ∷ xs) ≡ some c
    → (c ≡ x) ⊎ (c ≡ b)
unfolding latest_canary
latest_of_two id x xs b c t e h = elim (Bool-cases (is_later b x)) [
  | inl l ↦ inr (ground arith)
  | inr l ↦ inl (ground arith)
]

latest_canary-mem :
    (id : ℕ) (cs : List Canary) (c : Canary)
    → latest_canary id cs ≡ some c
    → Memᴰ c cs × (is_of_proposal id c ≡ true)
unfolding latest_canary
latest_canary-mem id [] c h = cc
latest_canary-mem id (x ∷ xs) c h = elim (Bool-cases (is_of_proposal id x)) [
  | inl t ↦ elim (Option-cases (latest_canary id xs)) [
    | inl e ↦ let same : c ≡ x = ground arith in (Memᴰ.head same, rw same t)
    | inr (b, e) ↦ elim (latest_of_two id x xs b c t e h) [
      | inl same ↦ (Memᴰ.head same, rw same t)
      | inr same ↦ let (m, u) = latest_canary-mem id xs b e in (Memᴰ.tail (rw same m), rw same u)
    ]
  ]
  | inr f ↦
      let later : latest_canary id xs ≡ some c = ground arith in
      let (m, u) = latest_canary-mem id xs c later in (Memᴰ.tail m, u)
]

mem-update_where {ℓ} :
    {A : Type ℓ} (q : A → Bool) (f : A → A) (xs : List A) (a : A)
    → Memᴰ a xs
    → q a ≡ true
    → Memᴰ (f a) (update_where q f xs)
mem-update_where q f [] a m t = elim m [ ]
mem-update_where q f (x ∷ xs) a (Memᴰ.head e) t =
    let here : q x ≡ true = rw (← e) t in rw here (Memᴰ.head (ap f e))
mem-update_where q f (x ∷ xs) a (Memᴰ.tail m) t = Memᴰ.tail (mem-update_where q f xs a m t)

-- The canary that was attested to production stays 'passed', and its proposal a code proposal.
published_facts :
    (now : ℕ) (body : ProductionAttestation) (o : Proposal) (found : Option Canary) (db after : Db)
    → publish_with now body o found db ≡ committed after
    → (c : Canary) × (found ≡ some c)
      × (is_passed c.status ≡ true)
      × (after.proposals ≡ set_proposal o.id publish db.proposals)
      × (after.canaries ≡ update_where (has_canary_id c.id) (close_routing now) db.canaries)
unfolding publish_with trust_bundle
published_facts now body o none db after h = cc
published_facts now body o (some c) db after h = (c, refl, ground arith, ground arith, ground arith)

still_owned :
    (now : ℕ) (p o : Proposal) (c : Canary) (db after : Db)
    → Memᴰ o db.proposals
    → is_code o.candidate_kind ≡ true
    → p.id ≢ o.id
    → is_of_proposal o.id c ≡ true
    → is_passed c.status ≡ true
    → after.proposals ≡ set_proposal o.id publish db.proposals
    → competes_with p.id after.proposals (close_routing now c) ≡ true
still_owned now p o c db after m k other own passed ps =
    let code : any (is_code_proposal c.proposal_id) after.proposals ≡ true = rw ps (
      mem→any (is_code_proposal c.proposal_id) (set_proposal o.id publish db.proposals) (publish o)
        (mem-update_where (has_id o.id) publish db.proposals o m (eq→== o.id o.id refl))
        (ground arith)) in
    ground arith

-- Once a code candidate is attested to production, its canary keeps the runtime: the approval of a
-- canary for any other code candidate is refused.
pub published-blocks :
    (now : ℕ) (attested : ProductionAttestation) (s : Settings) (body : ImprovementDecision)
    (p o : Proposal) (db after next : Db)
    → find (is_promoted_at attested.production_commit) db.proposals ≡ some o
    → is_code o.candidate_kind ≡ true
    → attest_promoted_production now attested db ≡ committed after
    → proposal_of body.proposal_key after ≡ some p
    → p.id ≢ o.id
    → is_code p.candidate_kind ≡ true
    → is_approved body.decision ≡ true
    → decide_canary s body after ≢ committed next
unfolding attest_promoted_production
published-blocks now attested s body p o db after next found code h key other k ok =
    let made : publish_with now attested o (latest_canary o.id db.canaries) db ≡ committed after =
      ground arith in
    let (c, latest, passed, ps, cs) =
      published_facts now attested o (latest_canary o.id db.canaries) db after made in
    let (m, own) = latest_canary-mem o.id db.canaries c latest in
    let (mo, _) = find-mem (is_promoted_at attested.production_commit) db.proposals o found in
    decide_canary-owned s body p (close_routing now c) after next key k ok
      (subst (Memᴰ (close_routing now c)) (sym cs) (
        mem-update_where (has_canary_id c.id) (close_routing now) db.canaries c m
          (eq→== c.id c.id refl)))
      (still_owned now p o c db after mo code other own passed ps)

-- Where a stale code proposal with a pending canary expires, the approval of a canary for any other
-- code candidate is refused: the expiry leaves the canary pending.
pub expired-blocks :
    (now : ℕ) (s : Settings) (body : ImprovementDecision) (p o : Proposal) (c : Canary)
    (db next : Db)
    → Memᴰ o db.proposals
    → is_stale now o ≡ true
    → is_code o.candidate_kind ≡ true
    → Memᴰ c db.canaries
    → is_of_proposal o.id c ≡ true
    → is_pending c.status ≡ true
    → proposal_of body.proposal_key (expire_stale_proposals now db) ≡ some p
    → p.id ≢ o.id
    → is_code p.candidate_kind ≡ true
    → is_approved body.decision ≡ true
    → decide_canary s body (expire_stale_proposals now db) ≢ committed next
unfolding expire_stale_proposals
expired-blocks now s body p o c db next mo stale code m own waiting key other k ok =
    let row : any (is_code_proposal c.proposal_id) (update_where (is_stale now) expire db.proposals)
        ≡ true =
      mem→any (is_code_proposal c.proposal_id) (update_where (is_stale now) expire db.proposals)
        (expire o) (mem-update_where (is_stale now) expire db.proposals o mo stale)
        (ground arith) in
    decide_canary-owned s body p c (expire_stale_proposals now db) next key k ok m (ground arith)
