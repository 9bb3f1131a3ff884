-- ===== src/Runtime/Tests.antt =====
-- The theorems on the runtime at concrete inputs: a connection's id and a revision are numbers.
use astesia.Base.{
  ℕ, ◌≡◌, ◌<◌, ◌^◌, ◌-◌, ◌↔◌, refl, arith, String, false, none, some, [], ◌∷◌, ok, ◌⊎◌, inr,
}
use astesia.Base.Table.{nat_key, get, insert, remove}
use astesia.Runtime.{
  Heap, ConnectedDriver, RuntimeState, superseded, advance_intent, install_replacing_if_current,
  detach, driver, lock_active,
}
use astesia.Runtime.Steps.{IsValid, IsUnused, Step, replaces, detaches, Reach, here, next}
use astesia.Runtime.Intents.{older_intent_superseded}
use astesia.Runtime.Handles.{Reach-IsValid}
use astesia.Runtime.Held.{lock_active_iff}
use astesia.Runtime.Connect.{allocate_generation, connect_replacing, connect_exclusive}
use astesia.Runtime.Opening.{
  allocate_generation_lem, ExclusivelyConnected, connect_exclusive_lem, connect_replacing-ok,
}

abbrev State : Type 0
State = RuntimeState ℕ ℕ ℕ

abbrev idle : Heap
idle _ = record { retired = false; disconnect_started = false }

abbrev fresh : State
fresh = record { drivers = []; current_intents = []; next_intent_generation = 0; heap = idle }

abbrev asked : State
asked = record fresh { current_intents = (7, 1) ∷ []; next_intent_generation = 1 }

abbrev asked_again : State
asked_again = record fresh { current_intents = (7, 2) ∷ []; next_intent_generation = 2 }

abbrev local : ConnectedDriver ℕ ℕ
local = record { handle = 3; attachment = 0; profile_revision = 5; generation = 1 }

abbrev connected : State
connected = record asked { drivers = (7, local) ∷ [] }

first : advance_intent 7 fresh ≡ ok (asked, 1)
unfolding advance_intent insert
first = refl

second : advance_intent 7 asked ≡ ok (asked_again, 2)
unfolding advance_intent insert remove
second = refl

fresh-IsValid : IsValid fresh
unfolding get
fresh-IsValid = record {
  drivers_once = tt;
  connected_active = λ id d found. absurd (cc found);
  handles_differ = λ i j d e found _ _. absurd (cc found);
  intents_given = λ id intent found. absurd (cc found);
}

fresh-IsUnused : IsUnused 3 asked
unfolding get
fresh-IsUnused id d found = absurd (cc found)

Reach-connected : Reach fresh connected
unfolding install_replacing_if_current get insert remove
Reach-connected =
    next (next here (Step.advances 7 1 first)) (replaces 7 1 local fresh-IsUnused refl refl)

local_connected : get 7 connected.drivers ≡ some local
unfolding get
local_connected = refl

older_intent_superseded_example :
    (1 < 2) × (install_replacing_if_current 7 1 local asked_again ≡ (asked_again, superseded local))
older_intent_superseded_example =
    older_intent_superseded 7 1 2 local fresh asked asked asked_again asked_again first here second
      here

lock_active_iff_example :
    (lock_active 3 (detach 7 connected).0.heap ≡ ok tt) ↔ (driver 7 (detach 7 connected).0 ≡ some 3)
lock_active_iff_example =
    lock_active_iff 7 local connected (detach 7 connected).0
      (Reach-IsValid Reach-connected fresh-IsValid) local_connected (next here (detaches 7 refl))

allocate_generation_lem_example :
    (after : ℕ) × (generation : ℕ) × (allocate_generation 2 (2 ^ 64 - 1) ≡ some (after, generation))
    × (0 < generation)
    × (generation < 2 ^ 64)
    × (after < 2 ^ 64)
allocate_generation_lem_example = allocate_generation_lem (2 ^ 64 - 1) (omega arith)

connect_exclusive_lem_example :
    ExclusivelyConnected {E = String} 7 2 4 5 none
      (inr 5)
      connected
      (connect_exclusive {E = String} 7 2 4 0 5 none (inr 5) (ok tt) connected).0
      (connect_exclusive {E = String} 7 2 4 0 5 none (inr 5) (ok tt) connected).1
connect_exclusive_lem_example =
    connect_exclusive_lem {E = String} 7 2 4 0 5 none (inr 5) (ok tt) connected

replaced_connect :
    (t : State) × (connect_replacing {E = String} 7 1 4 0 5 none (inr 5) (ok tt) (λ s. s) connected
      ≡ (t, ok tt))
unfolding connect_replacing get insert remove install_replacing_if_current
replaced_connect = (_, refl)

connect_replacing-ok_example :
    (◌≡◌ {A = String ⊎ ℕ} (inr 5) (inr 5))
    × (get 7 connected.current_intents ≡ some 1)
    × (driver 7 replaced_connect.0 ≡ some 4)
connect_replacing-ok_example =
    connect_replacing-ok {E = String} 7 1 4 0 5 none (inr 5) (ok tt) (λ s. s) connected
      replaced_connect.0 replaced_connect.1
