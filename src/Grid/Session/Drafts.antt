-- ===== src/Grid/Session/Drafts.antt =====
-- The operations on inserted and deleted rows, undo and discard: each keeps the session consistent.
use astesia.Base.{
  ℕ, ◌<◌, ◌≡◌, refl, subst, Bool, not, inl, inr, Option, none, some, List, [], ◌∷◌, arith, All,
  All-keep, keep, length, ok, >>=-eq-ok, ok-injective, ok_or, Bool-cases, Ordering,
}
use astesia.Base.Order.{nat_ord}
use astesia.Base.OrdMap.{OrdSet, IsSorted, Above, contains_key}
use astesia.Base.OrdMap.Sets.{keys_of, IsIncreasing, AreNew}
use astesia.Grid.Types.{JsonValue, GridPage, GridSessionError}
use astesia.Grid.Changes
use astesia.Grid.Changes.{GridChangeSet}
use astesia.Grid.Changes.Rewind.{Fits, undo-Fits, clear-Fits}
use astesia.Grid.Changes.Rewind.Rows.{
  set_draft_value-Fits, unset_draft_value-Fits, insert_draft-Fits, remove_draft-Fits,
  delete_rows-Fits,
}
use astesia.Grid.Selection.Laws.{clear-IsSelectionOf}
use astesia.Grid.Session.{GridState, GridSession, page, page_of, clear_selection}
use astesia.Grid.Session.Guards.{require_editable}
use astesia.Grid.Session.Guards.Laws.{require_editable_page}
use astesia.Grid.Session.Edit.{
  stage_insert, set_draft_value, unset_draft_value, remove_draft, stage_delete_selection,
  rows_to_delete, delete_these,
}
use astesia.Grid.Selection
use astesia.Grid.Selection.{GridSelection}
use astesia.Grid.Session.Save.{undo, discard_changes, is_saving, settled}
use astesia.Grid.Session.Invariant.{IsClean, IsConsistent, BelongsTo}
use astesia.Grid.Session.Consistent.{change-IsConsistent}

module _ {V : Type 0} ⦃j : JsonValue V⦄ where
  pub set_draft_value-IsConsistent :
      (draft_id column : ℕ) (value : V) (s t : GridSession V) (changed : Bool)
      → set_draft_value draft_id column value s ≡ ok (t, changed)
      → IsConsistent s
      → IsConsistent t
  unfolding set_draft_value
  set_draft_value-IsConsistent draft_id column value s t changed h v =
      let (_, editable, rest) = >>=-eq-ok (require_editable s) _ h in
      let (r, made, result) =
        >>=-eq-ok (Changes.set_draft_value draft_id column value s.changes) _ rest in
      let (p, shown, _) = require_editable_page s editable in
      subst (λ (r : GridSession V × Bool). IsConsistent r.0) (ok-injective result)
        (change-IsConsistent s p r.0 shown
          (set_draft_value-Fits _ _ draft_id column value s.changes r.0 r.1 made) v)

module _ {V : Type 0} where
  pub unset_draft_value-IsConsistent :
      (draft_id column : ℕ) (s t : GridSession V) (changed : Bool)
      → unset_draft_value draft_id column s ≡ ok (t, changed)
      → IsConsistent s
      → IsConsistent t
  unfolding unset_draft_value
  unset_draft_value-IsConsistent draft_id column s t changed h v =
      let (_, editable, rest) = >>=-eq-ok (require_editable s) _ h in
      let (r, made, result) =
        >>=-eq-ok (Changes.unset_draft_value draft_id column s.changes) _ rest in
      let (p, shown, _) = require_editable_page s editable in
      subst (λ (r : GridSession V × Bool). IsConsistent r.0) (ok-injective result)
        (change-IsConsistent s p r.0 shown
          (unset_draft_value-Fits _ _ draft_id column s.changes r.0 r.1 made) v)

  ok_or-eq_ok :
      (s : GridSession V) (p q : GridPage V)
      → page_of s.state ≡ some p
      → ok_or (page s) GridSessionError.awaiting_data ≡ ok q
      → p ≡ q
  unfolding page
  ok_or-eq_ok s p q shown h = ground arith

  pub stage_insert-IsConsistent :
      (s t : GridSession V) (id : ℕ) → stage_insert s ≡ ok (t, id) → IsConsistent s → IsConsistent t
  unfolding stage_insert
  stage_insert-IsConsistent s t id h v =
      let (_, editable, rest) = >>=-eq-ok (require_editable s) _ h in
      let (q, found, more) = >>=-eq-ok (ok_or (page s) GridSessionError.awaiting_data) _ rest in
      let (r, made, result) =
        >>=-eq-ok (Changes.insert_draft (length q.columns) s.changes) _ more in
      let (p, shown, _) = require_editable_page s editable in
      let same = ok_or-eq_ok s p q shown found in
      subst (λ (r : GridSession V × ℕ). IsConsistent r.0) (ok-injective result)
        (change-IsConsistent s q r.0 (rw (← same) shown)
          (insert_draft-Fits _ _ s.changes r.0 r.1 made) v)

  pub remove_draft-IsConsistent :
      (draft_id : ℕ) (s t : GridSession V) (changed : Bool)
      → remove_draft draft_id s ≡ ok (t, changed)
      → IsConsistent s
      → IsConsistent t
  unfolding remove_draft
  remove_draft-IsConsistent draft_id s t changed h v =
      let (_, editable, rest) = >>=-eq-ok (require_editable s) _ h in
      let (c, made, result) = >>=-eq-ok (Changes.remove_draft draft_id s.changes) _ rest in
      let (p, shown, _) = require_editable_page s editable in
      subst (λ (r : GridSession V × Bool). IsConsistent r.0) (ok-injective result)
        (change-IsConsistent s p c shown (remove_draft-Fits _ _ draft_id s.changes c made) v)

keys-Above :
    (k : ℕ) (s : OrdSet ℕ) → Above k s → All (λ j. nat_ord.cmp k j ≡ Ordering.lt) (keys_of s)
keys-Above k [] u = tt
keys-Above k ((j, _) ∷ s) u = (u.0, keys-Above k s u.1)

keep-IsIncreasing : (p : ℕ → Bool) (s : OrdSet ℕ) → IsSorted s → IsIncreasing (keep p (keys_of s))
unfolding keep
keep-IsIncreasing p [] h = tt
keep-IsIncreasing p ((k, _) ∷ s) h = ground (
  arith,
  keep-IsIncreasing p s h.1,
  All-keep (λ (j : ℕ). nat_ord.cmp k j ≡ Ordering.lt) p (keys_of s) (keys-Above k s h.0),
)

keys_in : (n : ℕ) (s : OrdSet ℕ) → All (λ e. e.0 < n) s → All (λ r. r < n) (keys_of s)
keys_in n [] a = tt
keys_in n ((k, _) ∷ s) a = (a.0, keys_in n s a.1)

keep_new :
    {V : Type 0} (c : GridChangeSet V) (ks : List ℕ)
    → AreNew c.deleted_rows (keep (λ r. not (Changes.is_row_deleted c r)) ks)
unfolding keep Changes.is_row_deleted contains_key
keep_new c [] = tt
keep_new c (k ∷ ks) = ground (arith, keep_new c ks)

module _ {V : Type 0} where
  delete_these-IsConsistent :
      (ks : List ℕ) (s : GridSession V) (p : GridPage V)
      → page_of s.state ≡ some p
      → (Fits (length p.rows) (length p.columns) s.changes
          → Fits (length p.rows) (length p.columns) (Changes.delete_rows ks s.changes))
      → IsConsistent s
      → IsConsistent (delete_these ks s).0
  unfolding delete_these clear_selection
  delete_these-IsConsistent [] s p shown keeps v = v
  delete_these-IsConsistent (k ∷ ks) s p shown keeps v =
      let b : BelongsTo (some p) s.changes s.selection = rw shown at v in
      let result : BelongsTo (some p) _ _ =
        (b.0, keeps b.1, clear-IsSelectionOf (length p.rows) s.selection) in
      rw shown result

  pub stage_delete_selection-IsConsistent :
      (s t : GridSession V) (changed : Bool)
      → stage_delete_selection s ≡ ok (t, changed)
      → IsConsistent s
      → IsConsistent t
  unfolding stage_delete_selection rows_to_delete
  stage_delete_selection-IsConsistent s t changed h v =
      let (_, editable, result) = >>=-eq-ok (require_editable s) _ h in
      let (p, shown, _) = require_editable_page s editable in
      let b : BelongsTo (some p) s.changes s.selection = rw shown at v in
      let rows = s.selection.rows in
      let fresh = λ (r : ℕ). not (Changes.is_row_deleted s.changes r) in
      subst (λ (r : GridSession V × Bool). IsConsistent r.0) (ok-injective result)
        (delete_these-IsConsistent (rows_to_delete s) s p shown
          (delete_rows-Fits _ _ (rows_to_delete s) s.changes
            (All-keep (λ r. r < length p.rows) fresh (keys_of rows)
              (keys_in (length p.rows) rows (b.2.rows_in)))
            (keep-IsIncreasing fresh rows (b.2.rows_sorted)) (keep_new s.changes (keys_of rows)))
          v)

  undo_clean : (c : GridChangeSet V) → IsClean c → (Changes.undo c).0 ≡ c
  unfolding Changes.undo
  undo_clean c h = ground (arith, h.no_history)

  undone_belongs :
      (o : Option (GridPage V)) (c : GridChangeSet V) (sel : GridSelection)
      → BelongsTo o c sel
      → BelongsTo o (Changes.undo c).0 sel
  undone_belongs none c sel b = (rw (undo_clean c b.0) b.0, b.1)
  undone_belongs (some p) c sel b = (b.0, undo-Fits _ _ c b.1, b.2)

  pub undo-IsConsistent : (s : GridSession V) → IsConsistent s → IsConsistent (undo s).0
  unfolding undo
  undo-IsConsistent s v = elim (Bool-cases (is_saving s.state)) [
    | inl busy ↦ rw (busy, undo) v
    | inr free ↦ rw (free, undo) (undone_belongs (page_of s.state) s.changes s.selection v)
  ]

  settled_page : (state : GridState V) → page_of (settled state) ≡ page_of state
  unfolding settled page_of
  settled_page (GridState.save_failed _ p) = refl
  settled_page _ = refl

  cleared_belongs :
      (o : Option (GridPage V)) (c : GridChangeSet V) (sel : GridSelection)
      → BelongsTo o c sel
      → BelongsTo o (Changes.clear c) (Selection.clear sel).0
  unfolding Changes.clear
  cleared_belongs none c sel b =
      (record { none_staged = refl; no_history = refl }, clear-IsSelectionOf 0 sel)
  cleared_belongs (some p) c sel b =
      (b.0, clear-Fits _ _ c, clear-IsSelectionOf (length p.rows) sel)

  pub discard_changes-IsConsistent :
      (s : GridSession V) → IsConsistent s → IsConsistent (discard_changes s).0
  unfolding discard_changes
  discard_changes-IsConsistent s v = elim (Bool-cases (is_saving s.state)) [
    | inl busy ↦ rw (busy, discard_changes) v
    | inr free ↦
        rw (free, discard_changes, settled_page s.state)
          (cleared_belongs (page_of s.state) s.changes s.selection v)
  ]
