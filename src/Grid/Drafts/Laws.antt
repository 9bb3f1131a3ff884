-- ===== src/Grid/Drafts/Laws.antt =====
-- Each write to the drafts can be taken back.
use astesia.Base.{
  ℕ, zero, suc, ◌≤◌, ◌<◌, min, ◌≡◌, refl, ap, false, Option, some, List, [], ◌∷◌, ◌++◌, arith, ◌==◌,
  length, get_elem?, get_elem?_lt, All,
}
use astesia.Grid.Types.{GridDraftRow}
use astesia.Grid.Drafts.{set_elem, insert_at, remove_at, find, position, write, without}

set_elem-set_elem {ℓ} :
    {A : Type ℓ} (xs : List A) (i : ℕ) (v w : A)
    → get_elem? xs i ≡ some w
    → set_elem (set_elem xs i v) i w ≡ xs
unfolding set_elem
set_elem-set_elem [] i v w h = refl
set_elem-set_elem (x ∷ xs) zero v w h = ground arith
set_elem-set_elem (x ∷ xs) (suc i) v w h = ap (◌∷◌ x) (set_elem-set_elem xs i v w h)

pub length-set_elem {ℓ} :
    {A : Type ℓ} (xs : List A) (i : ℕ) (v : A) → length (set_elem xs i v) ≡ length xs
unfolding set_elem
length-set_elem [] i v = refl
length-set_elem (x ∷ xs) zero v = refl
length-set_elem (x ∷ xs) (suc i) v = ap suc (length-set_elem xs i v)

module _ {V : Type 0} where
  -- No draft has the id `id`.
  abbrev pub Without : ℕ → List (GridDraftRow V) → Type 0
  Without id ds = All (λ d. (d.id == id) ≡ false) ds

  abbrev pub Below : ℕ → List (GridDraftRow V) → Type 0
  Below n ds = All (λ d. d.id ≤ n) ds

  -- Every draft has one cell for each of `n` columns.
  abbrev pub HaveWidth : ℕ → List (GridDraftRow V) → Type 0
  HaveWidth n ds = All (λ d. length d.values ≡ n) ds

  pub Below-mono : (m n : ℕ) (ds : List (GridDraftRow V)) → m ≤ n → Below m ds → Below n ds
  Below-mono m n [] h b = tt
  Below-mono m n (d ∷ ds) h b = (omega arith, Below-mono m n ds h b.1)

  pub Below-Without : (n id : ℕ) (ds : List (GridDraftRow V)) → n < id → Below n ds → Without id ds
  Below-Without n id [] h b = tt
  Below-Without n id (d ∷ ds) h b = (ground arith, Below-Without n id ds h b.1)

  without_self : (id : ℕ) (ds : List (GridDraftRow V)) → Without id ds → without id ds ≡ ds
  unfolding without
  without_self id [] w = refl
  without_self id (d ∷ ds) w = ground (arith, without_self id ds w.1)

  -- Taking back the draft that was just appended.
  pub without-append :
      (d : GridDraftRow V) (ds : List (GridDraftRow V))
      → Without d.id ds
      → without d.id (ds ++ d ∷ []) ≡ ds
  unfolding without
  without-append d [] w = ground arith
  without-append d (e ∷ ds) w = ground (arith, without-append d ds w.1)

  -- Writing the old value back.
  pub write-write :
      (id column : ℕ) (v old : Option V) (d : GridDraftRow V) (ds : List (GridDraftRow V))
      → find id ds ≡ some d
      → get_elem? d.values column ≡ some old
      → write id column old (write id column v ds) ≡ ds
  unfolding find write
  write-write id column v old d [] h g = refl
  write-write id column v old d (e ∷ ds) h g =
      ground (arith, write-write id column v old d ds, set_elem-set_elem e.values column v old)

  length-remove_at :
      (i : ℕ) (ds : List (GridDraftRow V)) {d : GridDraftRow V}
      → get_elem? ds i ≡ some d
      → suc (length (remove_at i ds)) ≡ length ds
  unfolding remove_at
  length-remove_at i [] h = absurd (cc)
  length-remove_at zero (e ∷ ds) h = refl
  length-remove_at (suc i) (e ∷ ds) h = ap suc (length-remove_at i ds h)

  insert_at-remove_at_exact :
      (i : ℕ) (d : GridDraftRow V) (ds : List (GridDraftRow V))
      → get_elem? ds i ≡ some d
      → insert_at i d (remove_at i ds) ≡ ds
  unfolding insert_at remove_at
  insert_at-remove_at_exact i d [] h = absurd (cc)
  insert_at-remove_at_exact zero d (e ∷ ds) h = ground arith
  insert_at-remove_at_exact (suc i) d (e ∷ ds) h = ap (◌∷◌ e) (insert_at-remove_at_exact i d ds h)

  -- Putting the removed draft back in its place.
  pub insert_at-remove_at :
      (i : ℕ) (d : GridDraftRow V) (ds : List (GridDraftRow V))
      → get_elem? ds i ≡ some d
      → insert_at (min i (length (remove_at i ds))) d (remove_at i ds) ≡ ds
  insert_at-remove_at i d ds h =
      let e : min i (length (remove_at i ds)) ≡ i =
        omega (arith, length-remove_at i ds h, get_elem?_lt ds i h) in
      rw e (insert_at-remove_at_exact i d ds h)

  pub position-get_elem? :
      (id : ℕ) (ds : List (GridDraftRow V)) (i : ℕ)
      → position id ds ≡ some i
      → (d : GridDraftRow V) × (get_elem? ds i ≡ some d)
  unfolding position
  position-get_elem? id [] i h = absurd (cc)
  position-get_elem? id (e ∷ ds) zero h = (e, refl)
  position-get_elem? id (e ∷ ds) (suc i) h = position-get_elem? id ds i (ground arith)

  -- What holds of every draft holds after each write.
  module _ (P : GridDraftRow V → Type 0) where
    pub All-remove_at : (i : ℕ) (ds : List (GridDraftRow V)) → All P ds → All P (remove_at i ds)
    unfolding remove_at
    All-remove_at i [] h = tt
    All-remove_at zero (d ∷ ds) h = h.1
    All-remove_at (suc i) (d ∷ ds) h = (h.0, All-remove_at i ds h.1)

    pub All-append :
        (ds : List (GridDraftRow V)) (d : GridDraftRow V) → All P ds → P d → All P (ds ++ d ∷ [])
    All-append [] d h p = (p, tt)
    All-append (e ∷ ds) d h p = (h.0, All-append ds d h.1 p)

  pub Below-write :
      (n id column : ℕ) (v : Option V) (ds : List (GridDraftRow V))
      → Below n ds
      → Below n (write id column v ds)
  unfolding write
  Below-write n id column v [] h = tt
  Below-write n id column v (d ∷ ds) h = ground (arith, Below-write n id column v ds h.1)

  pub HaveWidth-write :
      (n id column : ℕ) (v : Option V) (ds : List (GridDraftRow V))
      → HaveWidth n ds
      → HaveWidth n (write id column v ds)
  unfolding write
  HaveWidth-write n id column v [] h = tt
  HaveWidth-write n id column v (d ∷ ds) h =
      ground (arith, HaveWidth-write n id column v ds h.1, length-set_elem d.values column v)
