-- ===== src/Sync/Replay/Laws.antt =====
-- A request that comes again changes nothing.
use astesia.Base.{
  ℕ, ◌≤◌, ◌≡◌, refl, sym, ap, subst, ◌∙◌, false, ◌||◌, none, some, List, [], ◌∷◌, ◌++◌, leb, length,
  arith, is_some, inl, inr, Bool-cases, Option-cases,
}
use astesia.Base.Table.{Table, get, insert, remove, get-insert, get-remove, same_self}
use astesia.Sync.{Uuid, McpSyncContext, McpSyncResponse}
use astesia.Sync.Tombstones.{max_retained_keys, contains, AreDistinct}
use astesia.Sync.Tombstones.Laws.{contains-snoc, snoc-AreDistinct}
use astesia.Sync.Registry.{OperationKey, operation_key_key, RegistryState}
use astesia.Sync.Replay.{
  validate_context, forget_answers, completed_response, remember_response, operation_of, apply,
}

-- The answers are those of the queue's requests, none twice and 4096 at most.
pub record AreAnswered (completed : Table OperationKey McpSyncResponse) (order : List OperationKey)
    : Type 0 where
  pub same_keys : (key : OperationKey) → is_some (get key completed) ≡ contains key order
  pub order_once : AreDistinct order
  pub bounded : length order ≤ max_retained_keys

forget_answers-AreAnswered :
    (completed : Table OperationKey McpSyncResponse) (order : List OperationKey)
    → ((key : OperationKey) → is_some (get key completed) ≡ contains key order)
    → AreDistinct order
    → AreAnswered (forget_answers completed order).0 (forget_answers completed order).1
unfolding forget_answers contains
forget_answers-AreAnswered completed [] same d = record {
  same_keys = same;
  order_once = tt;
  bounded = omega arith;
}
forget_answers-AreAnswered completed (x ∷ order) same d =
    let rest = forget_answers-AreAnswered (remove x completed) order (λ key. removed key) d.1 in
    elim (Bool-cases (leb (length (x ∷ order)) max_retained_keys)) [
      | inl fits ↦ rw fits (record { same_keys = same; order_once = d; bounded = ground arith })
      | inr full ↦ rw full rest
    ]
  where
    removed : (key : OperationKey) → is_some (get key (remove x completed)) ≡ contains key order
    removed key = elim (Bool-cases (operation_key_key.same x key)) [
      | inl hit ↦
          let moved : contains key order ≡ false =
            ap (λ y. contains y order) (sym ((operation_key_key.same_iff x key).0 hit)) ∙ d.0 in
          rw (get-remove key x completed, hit) (sym moved)
      | inr other ↦ rw (get-remove key x completed, other) (same key ∙ rw other refl)
    ]

forget_answers_last :
    (key : OperationKey) (response : McpSyncResponse) (xs : List OperationKey)
    (completed : Table OperationKey McpSyncResponse)
    → contains key xs ≡ false
    → get key completed ≡ some response
    → get key (forget_answers completed (xs ++ key ∷ [])).0 ≡ some response
unfolding forget_answers contains
forget_answers_last key response [] completed absent h = h
forget_answers_last key response (x ∷ xs) completed absent h =
    elim (Bool-cases (operation_key_key.same x key)) [
      | inl hit ↦ absurd (cc (subst (λ b. (b || contains key xs) ≡ false) hit absent))
      | inr other ↦
          let kept : get key (remove x completed) ≡ some response =
            get-remove key x completed ∙ rw other h in
          let rest =
            forget_answers_last key response xs (remove x completed)
              (subst (λ b. (b || contains key xs) ≡ false) other absent) kept in
          elim (Bool-cases (leb (length (x ∷ (xs ++ key ∷ []))) max_retained_keys)) [
            | inl fits ↦ rw fits h
            | inr full ↦ rw full rest
          ]
    ]

module _ {R : Type 0} where
  abbrev pub IsAnswered : RegistryState R → Type 0
  IsAnswered s = AreAnswered s.completed_operations s.operation_order

  -- `remember_response` keeps the answers and the queue together, with 4096 answers at most, and has an
  -- answer to the request afterwards: the one that it had before, or else the new one.
  pub remember_response-IsAnswered :
      (key : OperationKey) (response : McpSyncResponse) (s : RegistryState R)
      → IsAnswered s
      → IsAnswered (remember_response key response s)
        × (completed_response key (remember_response key response s)
            ≡ some (elim (completed_response key s) [ none ↦ response | some old ↦ old ]))
  unfolding remember_response completed_response contains
  remember_response-IsAnswered key response s v =
      elim (Option-cases (get key s.completed_operations)) [
        | inr (old, found) ↦
            let same : remember_response key response s ≡ s = rw found refl in
            rw (same, found) (v, refl)
        | inl absent ↦
            let new : contains key s.operation_order ≡ false =
              sym (v.same_keys key) ∙ rw absent refl in
            rw absent (
              forget_answers-AreAnswered (insert key response s.completed_operations)
                  (s.operation_order ++ key ∷ []) (λ other. inserted other)
                  (snoc-AreDistinct key s.operation_order new v.order_once),
              forget_answers_last key response s.operation_order
                  (insert key response s.completed_operations) new
                  (get-insert key key response s.completed_operations ∙ rw (same_self key) refl),
            )
      ]
    where
      inserted :
          (other : OperationKey)
          → is_some (get other (insert key response s.completed_operations))
            ≡ contains other (s.operation_order ++ key ∷ [])
      inserted other =
          rw
            (
              get-insert other key response s.completed_operations,
              contains-snoc other key s.operation_order,
            )
            (elim (Bool-cases (operation_key_key.same key other)) [
              | inl hit ↦ rw hit refl
              | inr apart ↦ rw apart (v.same_keys other)
            ])

  apply-answered :
      (protocol_version : ℕ) (service : Uuid) (context : McpSyncContext)
      (handle : RegistryState R → RegistryState R × McpSyncResponse) (s : RegistryState R)
      (response : McpSyncResponse)
      → validate_context protocol_version context service ≡ none
      → completed_response (operation_of context) s ≡ some response
      → apply protocol_version service context handle s ≡ (s, response)
  unfolding apply
  apply-answered protocol_version service context handle s response valid found =
      rw (apply, valid, found) refl

  -- A request that was carried out, and did not itself touch the answers, gets the same answer when it
  -- comes again, whatever its operation would do then, and nothing is changed.
  pub apply-again :
      (protocol_version : ℕ) (service : Uuid) (context : McpSyncContext)
      (handle again : RegistryState R → RegistryState R × McpSyncResponse) (s t : RegistryState R)
      (response : McpSyncResponse)
      → IsAnswered s
      → (handle s).0.completed_operations ≡ s.completed_operations
      → (handle s).0.operation_order ≡ s.operation_order
      → apply protocol_version service context handle s ≡ (t, response)
      → validate_context protocol_version context service ≡ none
      → apply protocol_version service context again t ≡ (t, response)
  unfolding apply completed_response
  apply-again protocol_version service context handle again s t response v same order h valid =
      let key = operation_of context in
      elim (Option-cases (completed_response key s)) [
        | inr (old, found) ↦
            let before = apply-answered protocol_version service context handle s old valid found in
            subst (λ p. apply protocol_version service context again p.0 ≡ p) (sym before ∙ h)
              (apply-answered protocol_version service context again s old valid found)
        | inl absent ↦
            let answer : McpSyncResponse = (handle s).1 in
            let u : RegistryState R = remember_response key answer (handle s).0 in
            let first : apply protocol_version service context handle s ≡ (u, answer) =
              rw (apply, valid, absent) refl in
            let missing : completed_response key (handle s).0 ≡ none = ap (get key) same ∙ absent in
            let kept : completed_response key u ≡ some answer =
              (remember_response-IsAnswered key answer (handle s).0 (rw (same, order) v)).1
              ∙ rw missing refl in
            subst (λ p. apply protocol_version service context again p.0 ≡ p) (sym first ∙ h)
              (apply-answered protocol_version service context again u answer valid kept)
      ]
