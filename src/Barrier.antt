-- ===== src/Barrier.antt =====
-- The start and the end of the threads of rtmb_c/src/testcase/thread_priority_test/
-- thread_priority_test.c as a step relation: `total` threads count themselves in and wait on a
-- condition variable; the parent wakes them all, and waits on another one until all have counted
-- themselves out. What a thread does between taking and giving back `tsyncers->mutex` is one step.
pub mod Invariant
pub mod Stuck
mod Examples
use rtmb.Base.{◌≡◌, ◌==◌, ◌<◌, if◌then◌else◌, ◌-◌, ◌+◌, ℕ, Bool, true}

-- Where the parent is: in its first loop, before the broadcast, before a test of its second loop,
-- between that test and the wait, in the wait, and behind the loop.
pub data Parent : Type 0 where
  counting signalling checking going asleep finished : Parent

-- `counter`, and how many threads have not arrived, wait, are awake, and are done.
pub record Crew : Type 0 where
  pub counter : ℕ
  pub ready : ℕ
  pub waiting : ℕ
  pub awake : ℕ
  pub done : ℕ
  pub parent : Parent

abbrev pub start : ℕ → Crew
start total = record {
  counter = 0;
  ready = total;
  waiting = 0;
  awake = 0;
  done = 0;
  parent = counting;
}

-- `lock_inc_counter`, up to its `pthread_cond_wait`, which gives the mutex back.
abbrev pub lock_inc_counter : Crew → Crew
lock_inc_counter s = record s {
  counter = s.counter + 1;
  ready = s.ready - 1;
  waiting = s.waiting + 1;
}

-- `pthread_cond_signal(&parent_sema->cond)`: it wakes the parent if that waits, and is lost if not.
abbrev pub signal_parent : Parent → Parent
signal_parent counting = counting
signal_parent signalling = signalling
signal_parent checking = checking
signal_parent going = going
signal_parent asleep = checking
signal_parent finished = finished

-- `lock_dec_counter`
abbrev pub lock_dec_counter : Crew → Crew
lock_dec_counter s = record s {
  counter = s.counter - 1;
  awake = s.awake - 1;
  done = s.done + 1;
  parent = (if s.counter - 1 == 0 then signal_parent s.parent else s.parent);
}

-- `pthread_cond_broadcast(&tsyncers->cond)`
abbrev pub broadcast : Crew → Crew
broadcast s = record s { waiting = 0; awake = s.awake + s.waiting; parent = checking }

-- The steps of the threads and of the parent, which reads `counter` without the mutex. POSIX lets a
-- wait return without a signal; `spurious` tells whether that happens to a thread.
pub data Step (spurious : Bool) (total : ℕ) (s : Crew) : Crew → Type 0 where
  arrive : 0 < s.ready → Step spurious total s (lock_inc_counter s)
  leave : 0 < s.awake → Step spurious total s (lock_dec_counter s)
  see_all :
      s.parent ≡ counting
      → s.counter ≡ total
      → Step spurious total s (record s { parent = signalling })
  wake_all : s.parent ≡ signalling → Step spurious total s (broadcast s)
  see_zero :
      s.parent ≡ checking → s.counter ≡ 0 → Step spurious total s (record s { parent = finished })
  see_some :
      s.parent ≡ checking → 0 < s.counter → Step spurious total s (record s { parent = going })
  fall_asleep : s.parent ≡ going → Step spurious total s (record s { parent = asleep })
  wake_early :
      spurious ≡ true
      → 0 < s.waiting
      → Step spurious total s (record s { waiting = s.waiting - 1; awake = s.awake + 1 })

pub data Reach (spurious : Bool) (total : ℕ) : Crew → Type 0 where
  begin : Reach spurious total (start total)
  next : {s s' : Crew} → Reach spurious total s → Step spurious total s s' → Reach spurious total s'
