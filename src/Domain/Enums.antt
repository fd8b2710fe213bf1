-- ===== src/Domain/Enums.antt =====
-- backend/src/crosspatch/domain/enums.py. A member's value is the text that is stored for it.
use cross_patch.Prelude.{String, ◌≡◌, refl, Bool, true, false, Option, some, str_eq, if◌then◌else◌}

pub data Seat : Type 0 where
  prosecutor inspector counsel magistrate bailiff : Seat

pub data Effort : Type 0 where
  none low medium high xhigh : Effort

pub data Verdict : Type 0 where
  clear remand block abstain : Verdict

pub data IncidentState : Type 0 where
  opened reproducing evidence_ready analyzing patching reviewing approval_pending : IncidentState
  approved executing test_failed verified blocked human_escalation : IncidentState

unfoldable pub seat_value : Seat → String
seat_value prosecutor = "Prosecutor"
seat_value inspector = "Inspector"
seat_value counsel = "Counsel"
seat_value magistrate = "Magistrate"
seat_value bailiff = "Bailiff"

-- `Seat(value)`: `Option.none` stands for the ValueError.
unfoldable pub seat_of : String → Option Seat
seat_of v =
    if str_eq v "Prosecutor"
    then some prosecutor
    else if str_eq v "Inspector"
    then some inspector
    else if str_eq v "Counsel"
    then some counsel
    else if str_eq v "Magistrate"
    then some magistrate
    else if str_eq v "Bailiff"
    then some bailiff
    else Option.none

unfoldable pub verdict_value : Verdict → String
verdict_value clear = "CLEAR"
verdict_value remand = "REMAND"
verdict_value block = "BLOCK"
verdict_value abstain = "ABSTAIN"

-- `Verdict(value)`.
unfoldable pub verdict_of : String → Option Verdict
verdict_of v =
    if str_eq v "CLEAR"
    then some clear
    else if str_eq v "REMAND"
    then some remand
    else if str_eq v "BLOCK"
    then some block
    else if str_eq v "ABSTAIN"
    then some abstain
    else Option.none

abbrev pub seat_eq : Seat → Seat → Bool
seat_eq prosecutor prosecutor = true
seat_eq inspector inspector = true
seat_eq counsel counsel = true
seat_eq magistrate magistrate = true
seat_eq bailiff bailiff = true
seat_eq _ _ = false

pub seat_of-seat_value : (s : Seat) → seat_of (seat_value s) ≡ some s
unfolding seat_of seat_value
seat_of-seat_value prosecutor = refl
seat_of-seat_value _ = refl

pub verdict_of-verdict_value : (v : Verdict) → verdict_of (verdict_value v) ≡ some v
unfolding verdict_of verdict_value
verdict_of-verdict_value clear = refl
verdict_of-verdict_value _ = refl
