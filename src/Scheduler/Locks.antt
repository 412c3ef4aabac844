-- ===== src/Scheduler/Locks.antt =====
-- The distributed lock of the jobs: who may run, and what is released.
use goi_mon.Prelude.{
  ℕ, ◌+◌, ◌<◌, ◌≤◌, ◌≡◌, ◌≢◌, refl, ap, ◌∙◌, ◌⊎◌, inl, inr, true, false, Option, none, some, arith,
}
use goi_mon.Realtime.{World}
use goi_mon.Scheduler.{Lock, held, try_lock, release_lock, run_sweep, sweep_abandoned_sessions}

-- After an instance took the lock, no instance takes it before its lease is over.
pub lock_exclusive :
    (a b t t' ttl ttl' : ℕ) (lock : Option Lock)
    → t' < t + ttl
    → (try_lock t a ttl lock).0 ≡ true
    → (try_lock t' b ttl' (try_lock t a ttl lock).1).0 ≡ false
unfolding try_lock
lock_exclusive a b t t' ttl ttl' lock early h = ground arith

module _ (meanwhile gap : Option Lock → Option Lock) (start finish me ttl now : ℕ) (now_of : ℕ → ℕ)
    (w : World) where
  -- The lock when the sweep, which took it, reads it at its end.
  abbrev pub seen : Option Lock
  seen = meanwhile (some (record { holder = me; expires_at = start + ttl }))

  skipped :
      (lock : Option Lock) (l : Lock)
      → lock ≡ some l
      → start < l.expires_at
      → sweep_abandoned_sessions meanwhile gap start finish me ttl now now_of w lock ≡ (w, some l)
  unfolding sweep_abandoned_sessions try_lock
  skipped lock l e live = rw e (ground arith)

  -- A key that is not there, or has expired.
  not_held :
      (lock : Option Lock)
      → ((l : Lock) → lock ≡ some l → l.expires_at ≤ start)
      → held start lock ≡ none
  not_held none over = refl
  not_held (some l) over = ground (arith, over l refl)

  ran :
      (lock : Option Lock)
      → held start lock ≡ none
      → sweep_abandoned_sessions meanwhile gap start finish me ttl now now_of w lock
        ≡ (run_sweep now now_of w, release_lock gap finish me seen)
  unfolding sweep_abandoned_sessions
  ran lock free = rw (free, try_lock) refl

  kept_lock :
      (l : Lock)
      → seen ≡ some l
      → (l.expires_at ≤ finish) ⊎ (l.holder ≢ me)
      → release_lock gap finish me seen ≡ gap seen
  unfolding release_lock
  kept_lock l e h = rw e (ground arith)

  -- A run of the sweep whose lock is held when it starts changes neither the world nor the lock.
  -- One that finds no lock, or an expired one, sweeps, and then what becomes of the lock depends
  -- on the lock that it reads at its end: where that is none, expired, or of another instance, it
  -- is left as other clients make it; where it is its own and live, there is no lock afterwards,
  -- also where another client took the lock between the reading and the deletion.
  pub sweep_releases :
      (lock : Option Lock)
      → let after = sweep_abandoned_sessions meanwhile gap start finish me ttl now now_of w lock in
        ((l : Lock) → lock ≡ some l → start < l.expires_at → after ≡ (w, some l))
        × (((l : Lock) → lock ≡ some l → l.expires_at ≤ start)
            → (after.0 ≡ run_sweep now now_of w)
              × (seen ≡ none → after.1 ≡ gap none)
              × ((l : Lock) → seen ≡ some l → l.expires_at ≤ finish → after.1 ≡ gap seen)
              × ((l : Lock) → seen ≡ some l → l.holder ≢ me → after.1 ≡ gap seen)
              × ((l : Lock)
                  → seen ≡ some l
                  → l.holder ≡ me
                  → finish < l.expires_at
                  → after.1 ≡ none))
  sweep_releases lock = (
    skipped lock,
    λ over.
        let run = ran lock (not_held lock over) in
        let after = ap (λ (x : World × Option Lock). x.1) run in
        (
          ap (λ (x : World × Option Lock). x.0) run,
          (λ e. after ∙ (unfold release_lock in rw e refl)),
          (λ l e late. after ∙ kept_lock l e (inl late)),
          (λ l e other. after ∙ kept_lock l e (inr other)),
          (λ l e mine live. after ∙ (unfold release_lock in rw e (ground arith))),
        ),
  )
