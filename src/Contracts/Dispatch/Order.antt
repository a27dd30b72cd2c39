-- ===== src/Contracts/Dispatch/Order.antt =====
-- Under an ordered contract the required tools succeed in the contract's order, whatever calls the
-- model selects and whatever the tools return.
use mathlib.Core.List.{append-nil, append_assoc, map-append}
use google_connector_app.Prelude.{
  String, ◌≡◌, refl, sym, ap, ◌∙◌, ◌⊎◌, inl, inr, Bool, true, false, ◌&&◌, none, some, List, [],
  ◌∷◌, ◌++◌, map, arith, keep, contains, Bool-cases, if◌then◌else◌, eq_iff, &&-left,
}
use google_connector_app.Contracts.{
  WriteContract, Execution, is_ordered, ordered, failed, succeeds, tool_name, first_mismatch,
  successful_required_tools, next_ordered_required_tool,
}
use google_connector_app.Contracts.Ordered.{first_mismatch-prefix}
use google_connector_app.Contracts.Dispatch.{
  World, executions_of, in_contract, deferred, execute, dispatch,
}

-- One list is the beginning of the other: the contract is under way, or it is complete.
abbrev pub InStep : List String → List String → Type 0
InStep required done =
    ((rest : List String) × (done ++ rest ≡ required))
    ⊎ ((extra : List String) × (required ++ extra ≡ done))

keep-append {ℓ} :
    {A : Type ℓ} (p : A → Bool) (xs ys : List A) → keep p (xs ++ ys) ≡ keep p xs ++ keep p ys
keep-append p [] ys = refl
keep-append p (x ∷ xs) ys = elim (Bool-cases (p x)) [
  | inl t ↦ rw (t, keep-append p xs ys)
  | inr f ↦ rw (f, keep-append p xs ys)
]

module _ (c : WriteContract) (executions : List Execution) (e : Execution) where
  successful-snoc :
      successful_required_tools c (executions ++ e ∷ [])
      ≡ successful_required_tools c executions ++ map tool_name (keep (succeeds c) (e ∷ []))
  unfolding successful_required_tools
  successful-snoc = rw keep-append (map-append tool_name _ _)

  successful-snoc_false :
      succeeds c e ≡ false
      → successful_required_tools c (executions ++ e ∷ []) ≡ successful_required_tools c executions
  successful-snoc_false f = successful-snoc ∙ rw f (append-nil _)

  successful-snoc_true :
      succeeds c e ≡ true
      → successful_required_tools c (executions ++ e ∷ [])
        ≡ successful_required_tools c executions ++ tool_name e ∷ []
  successful-snoc_true t = successful-snoc ∙ rw t refl

start : (c : WriteContract) → successful_required_tools c [] ++ c.required_tools ≡ c.required_tools
unfolding successful_required_tools
start c = refl

module _ (c : WriteContract) (mode : c.completion_mode ≡ ordered) where
  next_expected :
      (executions : List Execution) (r : String) (after : List String)
      → successful_required_tools c executions ++ r ∷ after ≡ c.required_tools
      → next_ordered_required_tool (some c) executions ≡ some r
  unfolding next_ordered_required_tool
  next_expected executions r after e =
      let done : List String = successful_required_tools c executions in
      ap (λ m. if is_ordered m then first_mismatch c.required_tools done else none) mode
      ∙ ap (λ ns. first_mismatch ns done) (sym e)
      ∙ first_mismatch-prefix done after r

  -- The required call that is not deferred is the one that the contract wants next.
  not_deferred :
      (executions : List Execution) (name r : String) (after : List String)
      → successful_required_tools c executions ++ r ∷ after ≡ c.required_tools
      → contains c.required_tools name ≡ true
      → deferred (some c) executions name ≡ false
      → name ≡ r
  unfolding deferred
  not_deferred executions name r after e required h =
      ground (arith, next_expected executions r after e, eq_iff name r)

  extend :
      (executions : List Execution) (name : String)
      → contains c.required_tools name ≡ true
      → deferred (some c) executions name ≡ false
      → InStep c.required_tools (successful_required_tools c executions)
      → InStep c.required_tools (successful_required_tools c executions ++ name ∷ [])
  extend executions name required h (inl ([], p)) =
      inr (name ∷ [], ap (λ xs. xs ++ name ∷ []) (sym p ∙ append-nil _))
  extend executions name required h (inl (r ∷ after, p)) = inl (
    after,
    append_assoc (successful_required_tools c executions) (name ∷ []) after
        ∙ ap (λ n. successful_required_tools c executions ++ n ∷ after)
            (not_deferred executions name r after p required h)
        ∙ p,
  )
  extend executions name required h (inr (extra, p)) = inr (
    extra ++ name ∷ [],
    sym (append_assoc c.required_tools extra (name ∷ [])) ∙ ap (λ xs. xs ++ name ∷ []) p,
  )

  module _ (world : World) where
    step-InStep :
        (executions : List Execution) (name : String)
        → deferred (some c) executions name ≡ false
        → InStep c.required_tools (successful_required_tools c executions)
        → InStep c.required_tools
            (successful_required_tools c (executions ++ execute world executions name ∷ []))
    step-InStep executions name h s =
        let e : Execution = execute world executions name in
        elim (Bool-cases (succeeds c e)) [
          | inl t ↦
              rw (successful-snoc_true c executions e t)
                (extend executions name (&&-left _ _ t) h s)
          | inr f ↦ rw (successful-snoc_false c executions e f) s
        ]

    dispatch-InStep_from :
        (calls : List String) (executions : List Execution)
        → InStep c.required_tools (successful_required_tools c executions)
        → InStep c.required_tools
            (successful_required_tools c (executions_of (dispatch (some c) world calls executions)))
    unfolding dispatch
    dispatch-InStep_from [] executions s = s
    dispatch-InStep_from (name ∷ calls) executions s =
        elim (Bool-cases (deferred (some c) executions name)) [
          | inl later ↦ rw (later, dispatch) (dispatch-InStep_from calls executions s)
          | inr now ↦
              rw (now, dispatch)
                (elim (Bool-cases
                  (in_contract (some c) name && failed (execute world executions name))) [
                    | inl stop ↦ rw (stop, dispatch) (step-InStep executions name now s)
                    | inr go ↦
                        rw (go, dispatch)
                          (dispatch-InStep_from calls _ (step-InStep executions name now s))
                  ])
        ]

-- Whatever calls the model selects and whatever the tools return, the required tools of an ordered
-- contract succeed in its order: the successes are a beginning of the contract's tools, or the
-- contract's tools are all there at the beginning of the successes.
pub dispatch-InStep :
    (c : WriteContract) (world : World) (calls : List String)
    → c.completion_mode ≡ ordered
    → InStep c.required_tools
        (successful_required_tools c (executions_of (dispatch (some c) world calls [])))
dispatch-InStep c world calls mode =
    dispatch-InStep_from c mode world calls [] (inl (c.required_tools, start c))
