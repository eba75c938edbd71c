-- ===== src/Manager/Race.antt =====
-- One round of `threads_handler` and the `message_handler` that it starts (ServerIList/Manager.cpp),
-- in any order of their steps: both write `threads[index]`.
use server_ilist.Prelude.{
  not, ℕ, zero, suc, ◌+◌, ◌≡◌, ◌≢◌, Bool, true, false, List, [], ◌∷◌, if◌then◌else◌, get_elem?,
  some,
}
use server_ilist.Manager.Threads.{threads_max}

-- What a slot holds; `dangling` is a pointer to a thread that was deleted.
pub data Slot : Type 0 where
  null live dangling : Slot

abbrev pub is_null : Slot → Bool
is_null null = true
is_null live = false
is_null dangling = false

-- `getFreeThreadIndex`: the first slot that is null, from `i` on.
unfoldable pub free_index : ℕ → List Slot → ℕ
free_index i [] = i
free_index i (t ∷ ts) = let rest = free_index (i + 1) ts in if is_null t then i else rest

abbrev pub set_slot : ℕ → Slot → List Slot → List Slot
set_slot index s [] = []
set_slot zero s (t ∷ ts) = s ∷ ts
set_slot (suc index) s (t ∷ ts) = t ∷ set_slot index s ts

-- Where `threads_handler` is: before `new std::thread`, before the assignment, before it reads the
-- slot for `join`, in `join`, before `delete`, and at the end of the round.
pub data Main : Type 0 where
  creating assigning reading joining deleting done : Main

pub data Worker : Type 0 where
  unborn running ended : Worker

pub record Round : Type 0 where
  pub slots : List Slot
  pub index : ℕ
  pub main : Main
  pub worker : Worker

-- `delete threads[index]`: of a null pointer it does nothing.
abbrev pub deleted : Slot → Slot
deleted null = null
deleted live = dangling
deleted dangling = dangling

-- A null pointer that is read for `join` has no step: that is undefined.
pub data RoundStep (r : Round) : Round → Type 0 where
  create : r.main ≡ creating → RoundStep r (record r { main = assigning; worker = running })
  assign :
      r.main ≡ assigning
      → RoundStep r (record r { slots = set_slot r.index live r.slots; main = reading })
  read :
      r.main ≡ reading
      → get_elem? r.slots r.index ≡ some live
      → RoundStep r (record r { main = joining })
  end_worker :
      r.worker ≡ running
      → RoundStep r (record r { slots = set_slot r.index null r.slots; worker = ended })
  join : r.main ≡ joining → r.worker ≡ ended → RoundStep r (record r { main = deleting })
  delete :
      (s : Slot)
      → r.main ≡ deleting
      → get_elem? r.slots r.index ≡ some s
      → RoundStep r (record r { slots = set_slot r.index (deleted s) r.slots; main = done })

pub data Runs (r : Round) : Round → Type 0 where
  here : Runs r r
  next : {s t : Round} → Runs r s → RoundStep s t → Runs r t

abbrev pub begin : List Slot → ℕ → Round
begin ts index = record { slots = ts; index = index; main = creating; worker = unborn }

-- Rounds one after another, each with a slot that is free.
pub data Rounds (ts : List Slot) : List Slot → Type 0 where
  stay : Rounds ts ts
  round :
      {us : List Slot} {r : Round}
      → Rounds ts us
      → free_index 0 us ≢ threads_max
      → Runs (begin us (free_index 0 us)) r
      → r.main ≡ done
      → Rounds ts r.slots

abbrev is_taken : Slot → Bool
is_taken s = not (is_null s)

abbrev RunOut : List Slot → Type 0
RunOut ts = (us : List Slot) × Rounds ts us × (free_index 0 us ≡ threads_max)
