-- ===== src/Database/Mutex.antt =====
-- `std::mutex` for the two mutexes `mtx` of PublicGroup and PublicLists. A message is handled on a
-- thread of its own, so a `lock` of a mutex that an earlier handler left locked waits for ever.
use server_ilist.Prelude.{true, false, not, ◌||◌, if◌then◌else◌}
use server_ilist.Exception.{deadlock, ok, fails}
use server_ilist.Action.{Action}
use server_ilist.World.{World, Mutex}

abbrev pub free : Mutex
free = record { held = false; misused = false }

abbrev locked : Mutex → Mutex
locked m = record m { held = true }

abbrev unlocked : Mutex → Mutex
unlocked m = record { held = false; misused = m.misused || not m.held }

module _ {H : Type 0} where
  unfoldable pub lock_groups : Action (World H) Unit
  lock_groups w =
      if w.groups_mtx.held
      then (fails deadlock, w)
      else (ok tt, record w { groups_mtx = locked w.groups_mtx })

  unfoldable pub unlock_groups : Action (World H) Unit
  unlock_groups w = (ok tt, record w { groups_mtx = unlocked w.groups_mtx })

  unfoldable pub lock_lists : Action (World H) Unit
  lock_lists w =
      if w.lists_mtx.held
      then (fails deadlock, w)
      else (ok tt, record w { lists_mtx = locked w.lists_mtx })

  unfoldable pub unlock_lists : Action (World H) Unit
  unlock_lists w = (ok tt, record w { lists_mtx = unlocked w.lists_mtx })
