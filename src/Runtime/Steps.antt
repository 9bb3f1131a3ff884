-- ===== src/Runtime/Steps.antt =====
-- The calls of a runtime as steps on its state, and what holds between two of them.
use astesia.Base.{ℕ, ◌≤◌, String, ◌≡◌, ◌≢◌, false, some, Outcome, ok}
use astesia.Base.Table.{Key, get, IsTable}
use astesia.Runtime.{
  Handle, new_handle, disconnect, ConnectedDriver, RuntimeState, advance_intent,
  install_replacing_if_current, install_exclusive, detach,
}

module _ {C A R : Type 0} ⦃k : Key C⦄ where
  pub record IsValid (s : RuntimeState C A R) : Type 0 where
    pub drivers_once : IsTable s.drivers
    -- A driver that is connected is not retired.
    pub connected_active :
        (id : C) (d : ConnectedDriver A R)
        → get id s.drivers ≡ some d
        → (s.heap d.handle).retired ≡ false
    -- Two connections do not share a handle.
    pub handles_differ :
        (i j : C) (d e : ConnectedDriver A R)
        → get i s.drivers ≡ some d
        → get j s.drivers ≡ some e
        → d.handle ≡ e.handle
        → i ≡ j
    -- An intent was given out.
    pub intents_given :
        (id : C) (intent : ℕ)
        → get id s.current_intents ≡ some intent
        → intent ≤ s.next_intent_generation

  abbrev pub IsUnused : Handle → RuntimeState C A R → Type 0
  IsUnused h s = (id : C) (d : ConnectedDriver A R) → get id s.drivers ≡ some d → d.handle ≢ h

  -- The steps between which other operations of the program may run. A number stands for one handle for
  -- good, so a new handle has a number to which nothing was done. A driver is installed with a handle
  -- that no connection has, and only such handles are disconnected.
  pub data Step (s t : RuntimeState C A R) : Type 0 where
    advances : (id : C) (intent : ℕ) → advance_intent id s ≡ ok (t, intent) → Step s t
    allocates :
        (h : Handle)
        → s.heap h ≡ record { retired = false; disconnect_started = false }
        → t ≡ record s { heap = new_handle h s.heap }
        → Step s t
    replaces :
        (id : C) (intent : ℕ) (d : ConnectedDriver A R)
        → IsUnused d.handle s
        → (s.heap d.handle).retired ≡ false
        → t ≡ (install_replacing_if_current id intent d s).0
        → Step s t
    installs :
        (id : C) (d : ConnectedDriver A R)
        → IsUnused d.handle s
        → (s.heap d.handle).retired ≡ false
        → t ≡ (install_exclusive id d s).0
        → Step s t
    detaches : (id : C) → t ≡ (detach id s).0 → Step s t
    disconnects :
        (h : Handle) (result : Outcome String (Unit {0}))
        → IsUnused h s
        → t ≡ record s { heap = (disconnect h result s.heap).0 }
        → Step s t

  pub data Reach (s : RuntimeState C A R) : RuntimeState C A R → Type 0 where
    here : Reach s s
    next : {t u : RuntimeState C A R} → Reach s t → Step t u → Reach s u
