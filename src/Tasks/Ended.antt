-- ===== src/Tasks/Ended.antt =====
-- What a task that has ended stays, whatever is called.
use astesia.Base.{◌≡◌, refl, sym, ap, ◌∙◌, true, ◌⊎◌, inl, inr, Option, none, some, arith}
use astesia.Base.Order.{Ord}
use astesia.Base.Table.{Key, get}
use astesia.Tasks.{Float, TaskEntry, is_terminal}
use astesia.Tasks.Invariant.{IsValid, IsValidEntry, get-IsValid}
use astesia.Tasks.Steps.{World, Step}
use astesia.Tasks.Once.{complete_once}
use astesia.Tasks.Evolution.{
  Evolves, untouched, stopping, advancing, ending, Becomes, still_absent, created, evolved,
  ended_gone, Step-Becomes,
}

module _ {I F : Type 0} ⦃f : Float F⦄ where
  -- An ended task is as it was, whatever is done to its entry.
  Evolves-ended :
      (id : I) (d e : TaskEntry I F)
      → IsValidEntry id d
      → is_terminal d ≡ true
      → Evolves d e
      → e ≡ d
  Evolves-ended id d e v t (untouched same) = same
  Evolves-ended id d e v t (stopping going _) = absurd (cc)
  Evolves-ended id d e v t (advancing _ _ going _ _) = absurd (cc)
  Evolves-ended id d e v t (ending outcome now shape) =
      elim ((complete_once id outcome now d v).1) [
        | inl (_, same) ↦ cc
        | inr (going, _) ↦ absurd (cc)
      ]

module _ {I F : Type 0} ⦃k : Key I⦄ ⦃o : Ord I⦄ ⦃f : Float F⦄ where
  -- From a valid manager on, no call changes the entry of a task that has ended: the entry is the same
  -- afterwards, or it is no longer kept.
  pub Step-ended :
      (id : I) (e : TaskEntry I F) (w t : World I F)
      → IsValid w.manager
      → Step w t
      → get id w.manager.entries ≡ some e
      → is_terminal e ≡ true
      → (get id t.manager.entries ≡ some e) ⊎ (get id t.manager.entries ≡ none)
  Step-ended id e w t v s found over =
      go (get id w.manager.entries) (get id t.manager.entries) found (Step-Becomes id w t s v)
    where
      go : (x y : Option (TaskEntry I F)) → x ≡ some e → Becomes id x y → (y ≡ some e) ⊎ (y ≡ none)
      go _ _ x still_absent = absurd (cc)
      go _ _ x (created name message now) = absurd (cc)
      go _ _ x (evolved {d} {e = next} ev) = inl (
          ap some (
            Evolves-ended id d next (get-IsValid w.manager id d v (found ∙ sym x)) (ground arith)
              ev)
          ∙ x)
      go _ _ x (ended_gone _ _ _) = inr refl
