-- ===== src/Sessions.antt =====
-- sessions/service.py: the session of a broker is reused, refreshed or opened under the broker's
-- lock. Decrypting and decoding the stored secrets succeeds, since the program wrote them; what the
-- session cache is told is not modelled, since nothing reads it.
pub mod Ensure
pub mod Lock
use broker_bridge.Base.{
  ℕ, String, Bool, true, false, not, ◌&&◌, Option, none, some, List, [], ◌∷◌, ltb, ◌==◌,
  if◌then◌else◌, is_text, first_row,
}
use broker_bridge.Models.{BrokerAccount, SessionStatus, BrokerSession}
use broker_bridge.World.{
  app, not_found, broker_disabled, lock_contention, ok, Db, LockKey, Settings, Action, pure,
  or_raise, finally, ◌>>=◌, ◌>>◌, update_db, raise_if, commit, fresh_id,
}
use broker_bridge.Locks.{acquire_lock, release_lock}
use broker_bridge.Broker.{Tokens, authenticate, refresh_session}

abbrev pub is_valid : SessionStatus → Bool
is_valid SessionStatus.valid = true
is_valid _ = false

-- `existing.status == "valid" and expires and expires > now`
abbrev pub is_current : ℕ → BrokerSession → Bool
is_current now s = is_valid s.status && elim s.expires_at [ none ↦ false | some t ↦ ltb now t ]

-- The refresh token of a session that has one; an empty text counts as none.
abbrev pub refresh_token_of : BrokerSession → Option String
refresh_token_of s = elim s.refresh_token_encrypted [
  | none ↦ none
  | some t ↦ if is_text t then some t else none
]

-- The token for a refresh, if the session has one and no new login is asked for.
abbrev pub token_for : Bool → Option BrokerSession → Option String
token_for force none = none
token_for force (some s) = if force then none else refresh_token_of s

-- The row of the broker is changed, or added if there is none.
abbrev pub save_session : BrokerSession → List BrokerSession → List BrokerSession
save_session s [] = s ∷ []
save_session s (x ∷ l) =
    if x.broker_account_id == s.broker_account_id then s ∷ l else x ∷ save_session s l

module _ {F : Type 0} where
  abbrev pub find_broker : ℕ → Db F → Option (BrokerAccount F)
  find_broker id db = first_row (λ (b : BrokerAccount F). b.id == id) db.brokers

  -- `get_for_broker`
  abbrev pub get_for_broker : ℕ → Db F → Option BrokerSession
  get_for_broker id db = first_row (λ (s : BrokerSession). s.broker_account_id == id) db.sessions

  -- The session with the new tokens in it.
  abbrev pub session_of : Settings F → ℕ → Tokens → BrokerSession
  session_of settings id t = record {
    broker_account_id = id;
    access_token_encrypted = some (settings.encrypt_secret t.access_token);
    refresh_token_encrypted = some (settings.encrypt_secret t.refresh_token);
    expires_at = some t.expires_at;
    status = t.token_status;
  }

  -- The call of the broker: a refresh with the token, or a login.
  abbrev pub new_tokens : Settings F → Option String → Action F Tokens
  new_tokens settings none w = authenticate settings w
  new_tokens settings (some t) w = refresh_session settings (settings.decrypt_secret t) w

  abbrev pub store : Settings F → ℕ → Tokens → Action F BrokerSession
  store settings id t = do
    update_db (λ db. record db { sessions = save_session (session_of settings id t) db.sessions })
    commit
    pure (session_of settings id t)

  abbrev pub renew : Settings F → Bool → ℕ → Action F BrokerSession
  renew settings force id w =
      (do t ← new_tokens settings (token_for force (get_for_broker id w.db)); store settings id t) w

  -- What `ensure` does while it holds the lock.
  unfoldable pub ensure_locked : Settings F → Bool → ℕ → Action F BrokerSession
  unfolding authenticate refresh_session
  ensure_locked settings force id w = elim (get_for_broker id w.db) [
    | none ↦ renew settings force id w
    | some s ↦ if not force && is_current w.now s then (ok s, w) else renew settings force id w
  ]

  abbrev pub locked : Settings F → Bool → ℕ → ℕ → Action F BrokerSession
  locked settings force id token =
      finally (ensure_locked settings force id) (release_lock (LockKey.session_lock id) token)

  unfoldable pub ensure : Settings F → Bool → ℕ → Action F BrokerSession
  ensure settings force id = do
    b ← λ w. or_raise (find_broker id w.db) (app not_found 404) w
    raise_if (not b.enabled) (app broker_disabled 409)
    token ← fresh_id
    got ← acquire_lock (LockKey.session_lock id) token
    raise_if (not got) (app lock_contention 409)
    locked settings force id token
