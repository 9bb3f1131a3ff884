-- ===== src/Tasks/Progress.antt =====
-- Progress never goes back and stays a share of one.
use astesia.Base.{
  ℕ, ◌≡◌, refl, subst, Bool, true, false, ◌⊎◌, inl, inr, Option, some, arith, Bool-cases,
}
use mathlib.Core.Option.{some-injective}
use astesia.Base.Order.{Ord}
use astesia.Base.Table.{Key, get}
use astesia.Tasks.{Float, TaskOutcome, TaskEntry, new_entry, complete, new, progressed}
use astesia.Tasks.Steps.{World, Step, Reach, start, here, next, Reach-IsValid}
use astesia.Tasks.Evolution.{
  Evolves, untouched, stopping, advancing, ending, Becomes, still_absent, created, evolved,
  ended_gone, Step-Becomes,
}

-- What Rust documents of `f32`: `max` of two numbers is one of them and at least both, `max` of a number
-- and NaN is the number, `clamp` brings a number between its bounds and leaves NaN.
pub record FloatLaws (F : Type 0) ⦃f : Float F⦄ (IsAtMost : F → F → Type 0) : Type 0 where
  pub is_nan : F → Bool
  pub at_most_self : (a : F) → is_nan a ≡ false → IsAtMost a a
  pub at_most_trans : (a b c : F) → IsAtMost a b → IsAtMost b c → IsAtMost a c
  pub zero_at_most_one : IsAtMost f.zero f.one
  pub zero_number : is_nan f.zero ≡ false
  pub one_number : is_nan f.one ≡ false
  pub max_number :
      (a b : F)
      → is_nan a ≡ false
      → is_nan b ≡ false
      → ((f.max a b ≡ a) ⊎ (f.max a b ≡ b)) × IsAtMost a (f.max a b) × IsAtMost b (f.max a b)
  pub max_nan : (a b : F) → is_nan a ≡ false → is_nan b ≡ true → f.max a b ≡ a
  pub clamp_number :
      (a : F)
      → is_nan a ≡ false
      → (is_nan (f.clamp a) ≡ false) × IsAtMost f.zero (f.clamp a) × IsAtMost (f.clamp a) f.one
  pub clamp_nan : (a : F) → is_nan a ≡ true → is_nan (f.clamp a) ≡ true

module _ {F : Type 0} ⦃f : Float F⦄ (IsAtMost : F → F → Type 0) (laws : FloatLaws F IsAtMost) where
  -- A number from zero to one.
  abbrev pub IsShare : F → Type 0
  IsShare p = (laws.is_nan p ≡ false) × IsAtMost f.zero p × IsAtMost p f.one

  IsShare-max :
      (p q : F) → IsShare p → IsShare (f.max p (f.clamp q)) × IsAtMost p (f.max p (f.clamp q))
  IsShare-max p q s = elim (Bool-cases (laws.is_nan q)) [
    | inl nan ↦
        rw (laws.max_nan p (f.clamp q) s.0 (laws.clamp_nan q nan)) (s, laws.at_most_self p s.0)
    | inr number ↦
        let (plain, low, high) = laws.clamp_number q number in
        let (which, left, right) = laws.max_number p (f.clamp q) s.0 plain in
        (elim which [ inl e ↦ rw e s | inr e ↦ rw e (plain, low, high) ], left)
  ]

module _ {I F : Type 0} ⦃f : Float F⦄ (IsAtMost : F → F → Type 0)
    (laws : FloatLaws F IsAtMost) where
  complete_progress :
      (outcome : TaskOutcome) (now : ℕ) (d : TaskEntry I F)
      → ((complete outcome now d).0.task.progress ≡ d.task.progress)
        ⊎ ((complete outcome now d).0.task.progress ≡ f.one)
  unfolding complete
  complete_progress (TaskOutcome.completed m) now d = ground arith
  complete_progress (TaskOutcome.partial m) now d = ground arith
  complete_progress (TaskOutcome.failed m) now d = ground arith
  complete_progress (TaskOutcome.cancelled m) now d = ground arith

  Evolves-IsShare :
      (d e : TaskEntry I F)
      → IsShare IsAtMost laws d.task.progress
      → Evolves d e
      → IsShare IsAtMost laws e.task.progress × IsAtMost d.task.progress e.task.progress
  unfolding progressed
  Evolves-IsShare d e s (untouched same) = rw same (s, laws.at_most_self _ s.0)
  Evolves-IsShare d e s (stopping _ shape) = rw shape (s, laws.at_most_self _ s.0)
  Evolves-IsShare d e s (advancing progress message _ _ shape) =
      rw shape (IsShare-max IsAtMost laws d.task.progress progress s)
  Evolves-IsShare d e s (ending outcome now shape) =
      rw shape (elim (complete_progress outcome now d) [
        | inl e ↦ rw e (s, laws.at_most_self _ s.0)
        | inr e ↦
            rw e
              ((laws.one_number, laws.zero_at_most_one, laws.at_most_self _ laws.one_number), s.2)
      ])

  abbrev AreShares : Option (TaskEntry I F) → Type 0
  AreShares x = (e : TaskEntry I F) → x ≡ some e → IsShare IsAtMost laws e.task.progress

  Becomes-IsShare :
      (id : I) (x y : Option (TaskEntry I F)) → Becomes id x y → AreShares x → AreShares y
  unfolding new_entry
  Becomes-IsShare id _ _ still_absent s e h = absurd (cc)
  Becomes-IsShare id _ _ (created name message now) s e h =
      let zero_share : IsShare IsAtMost laws f.zero =
        (laws.zero_number, laws.at_most_self _ laws.zero_number, laws.zero_at_most_one) in
      subst (λ (d : TaskEntry I F). IsShare IsAtMost laws d.task.progress) (some-injective _ _ h)
        zero_share
  Becomes-IsShare id _ _ (evolved {d} {e = later} ev) s e h =
      subst (λ (d : TaskEntry I F). IsShare IsAtMost laws d.task.progress) (some-injective _ _ h)
        ((Evolves-IsShare d later (s d refl) ev).0)
  Becomes-IsShare id _ _ (ended_gone _ _ _) s e h = absurd (cc)

module _ {I F : Type 0} ⦃k : Key I⦄ ⦃o : Ord I⦄ ⦃f : Float F⦄ (IsAtMost : F → F → Type 0)
    (laws : FloatLaws F IsAtMost) where
  -- Whatever calls are made from a new manager on, the progress of every task is a number from zero to
  -- one, also when a worker reports NaN.
  pub Reach-IsShare :
      (w : World I F) (id : I) (e : TaskEntry I F)
      → Reach start w
      → get id w.manager.entries ≡ some e
      → IsShare IsAtMost laws e.task.progress
  unfolding get new
  Reach-IsShare w id e here found = absurd (cc found)
  Reach-IsShare w id e (next {t} {u} r s) found =
      Becomes-IsShare IsAtMost laws id (get id t.manager.entries) (get id u.manager.entries)
        (Step-Becomes id t u s (Reach-IsValid r)) (λ d h. Reach-IsShare t id d r h) e found

  -- After any calls from a new manager on, the next call leaves no task with less progress than it had.
  pub Step-progress :
      (w t : World I F) (id : I) (d e : TaskEntry I F)
      → Reach start w
      → Step w t
      → get id w.manager.entries ≡ some d
      → get id t.manager.entries ≡ some e
      → IsAtMost d.task.progress e.task.progress
  Step-progress w t id d e r s before after =
      go (get id w.manager.entries) (get id t.manager.entries) before after
        (Step-Becomes id w t s (Reach-IsValid r))
    where
      go :
          (x y : Option (TaskEntry I F))
          → x ≡ some d
          → y ≡ some e
          → Becomes id x y
          → IsAtMost d.task.progress e.task.progress
      go _ _ x y still_absent = absurd (cc)
      go _ _ x y (created name message now) = absurd (cc)
      go _ _ x y (ended_gone _ _ _) = absurd (cc)
      go _ _ x y (evolved {d = old} {e = later} ev) =
          subst (λ (a : TaskEntry I F). IsAtMost d.task.progress a.task.progress)
            (some-injective _ _ y)
            ((Evolves-IsShare IsAtMost laws d later (Reach-IsShare w id d r before)
              (subst (λ a. Evolves a later) (some-injective _ _ x) ev)).1)
