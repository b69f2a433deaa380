-- ===== src/Sessions/Ensure.antt =====
-- What `ensure` returns, what it raises, and what it leaves as it was.
use broker_bridge.Base.{
  ℕ, suc, ◌+◌, ◌<◌, String, ◌≡◌, refl, ◌≢◌, ◌⊎◌, inl, inr, Bool, true, false, not, ◌&&◌, Option,
  none, some, List, arith, ◌==◌, ==_iff, Bool-cases, Option-cases, first_row-holds,
}
use broker_bridge.Models.{BrokerAccount, SessionStatus, BrokerSession}
use broker_bridge.World.{
  Result, app, not_found, broker_disabled, lock_contention, ok, raised, Db, LockKey, World,
  Settings,
}
use broker_bridge.Broker.{Tokens, hour, authenticate, refresh_session}
use broker_bridge.Sessions.{
  is_current, token_for, find_broker, get_for_broker, session_of, new_tokens, renew, ensure_locked,
  locked, ensure,
}
use broker_bridge.Locks.{holder, put, acquire, acquire_lock}

module _ {F : Type 0} (settings : Settings F) (force : Bool) (id : ℕ) where
  -- The session that is returned can be used: it is the broker's, valid, and not expired.
  abbrev pub IsUsable : ℕ → BrokerSession → Type 0
  IsUsable now s =
      (s.broker_account_id ≡ id)
      × (s.status ≡ SessionStatus.valid)
      × ((t : ℕ) × (s.expires_at ≡ some t) × (now < t))

  -- The second state is the first but for the sessions, what is committed, and the identifiers.
  abbrev pub Renewed : World F → World F → Type 0
  Renewed w w' =
      (s : List BrokerSession) × (d : Db F) × (n : ℕ) × (w'
        ≡ record w { db = record w.db { sessions = s }; durable = d; next_id = n })

  is_current-valid :
      (now : ℕ) (s : BrokerSession) → is_current now s ≡ true → s.status ≡ SessionStatus.valid
  is_current-valid now s h = by_status s.status refl
    where
      by_status : (x : SessionStatus) → s.status ≡ x → s.status ≡ SessionStatus.valid
      by_status SessionStatus.valid e = e
      by_status SessionStatus.missing e = absurd (ground arith)
      by_status SessionStatus.expired e = absurd (ground arith)

  is_current-later :
      (now : ℕ) (s : BrokerSession)
      → is_current now s ≡ true
      → (t : ℕ) × (s.expires_at ≡ some t) × (now < t)
  is_current-later now s h = elim (Option-cases s.expires_at) [
    | inl missing ↦ absurd (ground arith)
    | inr (t, found) ↦ (t, found, ground arith)
  ]

  new_tokens_lem :
      (w : World F) (token : Option String)
      → (t : Tokens) × (n : ℕ) × (new_tokens settings token w ≡ (ok t, record w { next_id = n }))
        × (t.token_status ≡ SessionStatus.valid)
        × (t.expires_at ≡ w.now + hour)
  unfolding authenticate refresh_session
  new_tokens_lem w none = (_, _, refl, refl, refl)
  new_tokens_lem w (some x) = (_, _, refl, refl, refl)

  -- A successful run with a usable session, and all that it changed.
  abbrev pub Usable : World F → Result BrokerSession × World F → Type 0
  Usable w out = ((s : BrokerSession) × (out.0 ≡ ok s) × IsUsable w.now s) × Renewed w out.1

  renew-Usable : (w : World F) → Usable w (renew settings force id w)
  renew-Usable w =
      let (t, n, e, valid, later) = new_tokens_lem w (token_for force (get_for_broker id w.db)) in
      rw e (
        (session_of settings id t, refl, (refl, valid, (t.expires_at, refl, omega (arith, later)))),
        (_, _, n, refl),
      )

  get_for_broker-id :
      (db : Db F) (s : BrokerSession) → get_for_broker id db ≡ some s → s.broker_account_id ≡ id
  get_for_broker-id db s h =
      ground
        (arith, first_row-holds (λ (x : BrokerSession). x.broker_account_id == id) db.sessions s h)

  pub ensure_locked-Usable : (w : World F) → Usable w (ensure_locked settings force id w)
  unfolding ensure_locked
  ensure_locked-Usable w = elim (Option-cases (get_for_broker id w.db)) [
    | inl missing ↦ rw (missing, ensure_locked) (renew-Usable w)
    | inr (s, found) ↦ elim (Bool-cases (not force && is_current w.now s)) [
      | inr stale ↦ rw (found, ensure_locked, stale) (renew-Usable w)
      | inl fresh ↦
          let current : is_current w.now s ≡ true = ground arith in
          rw (found, ensure_locked, fresh)
            (
              (
                s,
                refl,
                (
                  get_for_broker-id w.db s found,
                  is_current-valid w.now s current,
                  is_current-later w.now s current,
                ),
              ),
              (w.db.sessions, w.durable, w.next_id, refl),
            )
    ]
  ]

  abbrev pub key : LockKey
  key = LockKey.session_lock id

  -- The state in which the lock is held, and the run from there.
  abbrev pub holding : World F → World F
  holding w = record w { next_id = suc w.next_id; locks = put key w.next_id w.locks }

  -- The four ends of `ensure`.
  abbrev pub Unknown : World F → Type 0
  Unknown w =
      (find_broker id w.db ≡ none) × (ensure settings force id w ≡ (raised (app not_found 404), w))

  abbrev pub Disabled : World F → Type 0
  Disabled w =
      (b : BrokerAccount F) × (find_broker id w.db ≡ some b)
      × (b.enabled ≡ false)
      × (ensure settings force id w ≡ (raised (app broker_disabled 409), w))

  abbrev pub Contended : World F → Type 0
  Contended w =
      (t : ℕ) × (holder key w.locks ≡ some t)
      × (ensure settings force id w
          ≡ (raised (app lock_contention 409), record w { next_id = suc w.next_id }))

  abbrev pub Free : World F → Type 0
  Free w =
      (holder key w.locks ≡ none)
      × (ensure settings force id w ≡ locked settings force id w.next_id (holding w))

  pub ensure-ends :
      (w : World F)
      → holder key w.locks ≢ some w.next_id
      → Unknown w ⊎ (Disabled w ⊎ (Contended w ⊎ Free w))
  unfolding ensure acquire_lock acquire
  ensure-ends w fresh = elim (Option-cases (find_broker id w.db)) [
    | inl missing ↦ inl (missing, ground arith)
    | inr (b, found) ↦ inr (elim (Bool-cases b.enabled) [
      | inr off ↦ inl (b, found, off, ground arith)
      | inl on ↦ inr (elim (Option-cases (holder key w.locks)) [
        | inr (t, held) ↦ inl (t, held, ground (arith, ==_iff t w.next_id))
        | inl free ↦ inr (free, ground arith)
      ])
    ])
  ]
