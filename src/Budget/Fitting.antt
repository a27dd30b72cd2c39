-- ===== src/Budget/Fitting.antt =====
-- What comes out of the fitting: messages within the budget, that say the same but for tool results.
use mathlib.Core.List.{append_assoc, map-append}
use google_connector_app.Prelude.{
  ℕ, ◌+◌, ◌≡◌, refl, sym, ap, ◌∙◌, true, false, List, [], ◌∷◌, ◌++◌, map, arith, Bool-cases, inl,
  inr, if◌then◌else◌,
}
use google_connector_app.Budget.{
  Message, Budget, fitted, within_allowance, compacted, compact_from, fit_messages_to_budget,
}

-- A message less the content of a tool's result.
abbrev pub skeleton : Message → Message
skeleton m = record m { content = if m.is_tool then "" else m.content }

-- The messages are within the budget, and they are the given ones but for contents of tool results.
pub record IsFitted (b : Budget) (messages result : List Message) : Type 0 where
  pub within : within_allowance b result ≡ true
  pub same : map skeleton result ≡ map skeleton messages

skeleton-compacted : (m : Message) → m.is_tool ≡ true → skeleton (compacted m) ≡ skeleton m
skeleton-compacted m t = ground arith

module _ (b : Budget) (done : List Message) (m k : Message) (rest : List Message) (n : ℕ) where
  compact-pass :
      m.is_tool ≡ false
      → compact_from b done (m ∷ k ∷ rest) n ≡ compact_from b (done ++ m ∷ []) (k ∷ rest) n
  unfolding compact_from
  compact-pass h = ground arith

  compact-stop :
      m.is_tool ≡ true
      → within_allowance b (done ++ compacted m ∷ k ∷ rest) ≡ true
      → compact_from b done (m ∷ k ∷ rest) n ≡ fitted (done ++ compacted m ∷ k ∷ rest) (n + 1)
  unfolding compact_from
  compact-stop h w = ground arith

  compact-more :
      m.is_tool ≡ true
      → within_allowance b (done ++ compacted m ∷ k ∷ rest) ≡ false
      → compact_from b done (m ∷ k ∷ rest) n
        ≡ compact_from b (done ++ compacted m ∷ []) (k ∷ rest) (n + 1)
  unfolding compact_from
  compact-more h w = ground arith

fitted-inj : (xs ys : List Message) (i j : ℕ) → fitted xs i ≡ fitted ys j → xs ≡ ys
fitted-inj xs ys i j e = cc

replace :
    (done : List Message) (m m' : Message) (rest : List Message)
    → skeleton m' ≡ skeleton m
    → map skeleton (done ++ m' ∷ rest) ≡ map skeleton (done ++ m ∷ rest)
replace done m m' rest e =
    map-append skeleton done (m' ∷ rest)
    ∙ ap (λ x. map skeleton done ++ x ∷ map skeleton rest) e
    ∙ sym (map-append skeleton done (m ∷ rest))

compact-IsFitted :
    (b : Budget) (messages done rest result : List Message) (n count : ℕ)
    → map skeleton (done ++ rest) ≡ map skeleton messages
    → compact_from b done rest n ≡ fitted result count
    → IsFitted b messages result
compact-IsFitted b messages done [] result n count same h = unfold compact_from in cc
compact-IsFitted b messages done (m ∷ []) result n count same h = unfold compact_from in cc
compact-IsFitted b messages done (m ∷ k ∷ rest) result n count same h =
    elim (Bool-cases m.is_tool) [
      | inr plain ↦
          compact-IsFitted b messages (done ++ m ∷ []) (k ∷ rest) result n count
            (ap (map skeleton) (append_assoc done (m ∷ []) (k ∷ rest)) ∙ same)
            (sym (compact-pass b done m k rest n plain) ∙ h)
      | inl tool ↦
          let kept = replace done m (compacted m) (k ∷ rest) (skeleton-compacted m tool) ∙ same in
          elim (Bool-cases (within_allowance b (done ++ compacted m ∷ k ∷ rest))) [
            | inl fits ↦
                let e = fitted-inj _ _ _ _ (sym (compact-stop b done m k rest n tool fits) ∙ h) in
                rw (← e) (record { within = fits; same = kept })
            | inr over ↦
                compact-IsFitted b messages (done ++ compacted m ∷ []) (k ∷ rest) result (n + 1)
                  count (ap (map skeleton) (append_assoc done (compacted m ∷ []) (k ∷ rest)) ∙ kept)
                  (sym (compact-more b done m k rest n tool over) ∙ h)
          ]
    ]

module _ (b : Budget) (messages : List Message) where
  fit-first :
      within_allowance b messages ≡ true → fit_messages_to_budget b messages ≡ fitted messages 0
  unfolding fit_messages_to_budget
  fit-first h = rw (h, fit_messages_to_budget)

  fit-next :
      within_allowance b messages ≡ false
      → fit_messages_to_budget b messages ≡ compact_from b [] messages 0
  unfolding fit_messages_to_budget
  fit-next h = rw (h, fit_messages_to_budget)

-- Messages that are fitted to the budget, together with the tools' schema, the reserved completion
-- and the safety margin, stay within the context limit, and they are the given messages in the
-- given order, of which only contents of tool results may have changed.
pub fit_messages_to_budget-IsFitted :
    (b : Budget) (messages result : List Message) (count : ℕ)
    → fit_messages_to_budget b messages ≡ fitted result count
    → IsFitted b messages result
fit_messages_to_budget-IsFitted b messages result count h =
    elim (Bool-cases (within_allowance b messages)) [
      | inl fits ↦
          let e = fitted-inj _ _ _ _ (sym (fit-first b messages fits) ∙ h) in
          rw (← e) (record { within = fits; same = refl })
      | inr over ↦
          compact-IsFitted b messages [] messages result 0 count refl
            (sym (fit-next b messages over) ∙ h)
    ]
