-- ===== src/Identity/Sessions/Bounded.antt =====
-- auth/service.py: how many sessions of a user are active at a time.
use mathlib.Core.Path.{subst}
use dc_inventory.Identity.Admin.Guards.{find_identity}
use dc_inventory.Prelude.{
  some, ◌<◌, ℕ, zero, suc, ◌+◌, ◌-◌, ◌≤◌, ◌≡◌, refl, sym, ap, ◌∙◌, Bool, true, not, List, [], ◌∷◌,
  arith,
}
use dc_inventory.Prelude.Tests.{==_refl}
use dc_inventory.Prelude.Lists.{length, select, take, contains, all}
use dc_inventory.Prelude.Result.{ok}
use dc_inventory.Identity.Tables.{User, TelegramIdentity, AuthSession, IdentityTables, find_user}
use dc_inventory.Identity.Sessions.{
  is_active_session, new_session, load_auth_context, insert_session, oldest_first, session_ids,
  revoke_all, make_room, max_active_sessions_per_user, issue_auth_session,
}

module _ (p : AuthSession → Bool) where
  count-insert_session :
      (s : AuthSession) (ss : List AuthSession)
      → length (select p (insert_session s ss)) ≡ length (select p (s ∷ ss))
  unfolding insert_session
  count-insert_session s [] = refl
  count-insert_session s (t ∷ ts) = ground (arith, count-insert_session s ts)

  count-oldest_first :
      (ss : List AuthSession) → length (select p (oldest_first ss)) ≡ length (select p ss)
  unfolding oldest_first
  count-oldest_first [] = refl
  count-oldest_first (s ∷ ss) =
      count-insert_session s (oldest_first ss) ∙ ground (arith, count-oldest_first ss)

abbrev kept : List ℕ → AuthSession → Bool
kept ids s = not (contains s.id ids)

count-kept :
    (ids : List ℕ) (n : ℕ) (ss : List AuthSession)
    → all (λ s. contains s.id ids) (take n ss) ≡ true
    → length (select (kept ids) ss) ≤ length ss - n
count-kept ids zero [] h = omega arith
count-kept ids (suc n) [] h = omega arith
count-kept ids zero (s ∷ ss) h = ground (arith, count-kept ids zero ss refl)
count-kept ids (suc n) (s ∷ ss) h = ground (arith, count-kept ids n ss)

all-contains :
    (zs : List AuthSession) (ids : List ℕ)
    → ((y : ℕ) → contains y (session_ids zs) ≡ true → contains y ids ≡ true)
    → all (λ s. contains s.id ids) zs ≡ true
all-contains [] ids h = refl
all-contains (z ∷ zs) ids h =
    ground (arith, h z.id (ground arith), all-contains zs ids (λ y e. h y (ground (arith, e))))

length-oldest_first : (ss : List AuthSession) → length (oldest_first ss) ≡ length ss
unfolding oldest_first insert_session
length-oldest_first [] = refl
length-oldest_first (s ∷ ss) =
    length-insert_session s (oldest_first ss) ∙ ap suc (length-oldest_first ss)
  where
    length-insert_session :
        (s : AuthSession) (ss : List AuthSession) → length (insert_session s ss) ≡ suc (length ss)
    length-insert_session s [] = refl
    length-insert_session s (t ∷ ts) = ground (arith, length-insert_session s ts)

-- What is active later was active, and was kept.
active_later :
    (k now later : ℕ) (ids : List ℕ) (ss : List AuthSession)
    → now ≤ later
    → length (select (is_active_session k later) (revoke_all ids now ss))
      ≤ length (select (kept ids) (select (is_active_session k now) ss))
unfolding revoke_all
active_later k now later ids [] h = omega arith
active_later k now later ids (s ∷ ss) h = ground (arith, h, active_later k now later ids ss h)

room :
    (k now later : ℕ) (ss : List AuthSession)
    → now ≤ later
    → length (select (is_active_session k later) (make_room k now ss)) ≤ 4
unfolding make_room
room k now later ss h = omega (
  arith,
  active_later k now later ids ss h,
  count-oldest_first (kept ids) active,
  count-kept ids revoked (oldest_first active)
      (all-contains (take revoked (oldest_first active)) ids (λ y e. e)),
  length-oldest_first active,
)
  where
    active : List AuthSession
    active = select (is_active_session k now) ss

    revoked : ℕ
    revoked = (length active + 1) - max_active_sessions_per_user

    ids : List ℕ
    ids = session_ids (take revoked (oldest_first active))

pub issue_steps :
    (hash_session_token : ℕ → ℕ) (user : User) (session_id raw_token ttl now : ℕ)
    (t t' : IdentityTables)
    → issue_auth_session hash_session_token user session_id raw_token ttl now t ≡ ok t'
    → t' ≡ record t {
      auth_sessions =
          new_session hash_session_token user session_id raw_token ttl now
          ∷ make_room user.id now t.auth_sessions;
    }
unfolding issue_auth_session
issue_steps hash_session_token user session_id raw_token ttl now t t' h = ground arith

-- However many sessions a user had, once a session was issued at most five of them are active, then
-- and at any later time.
pub issue-Bounded :
    (hash_session_token : ℕ → ℕ) (user : User) (session_id raw_token ttl now later : ℕ)
    (t t' : IdentityTables)
    → issue_auth_session hash_session_token user session_id raw_token ttl now t ≡ ok t'
    → now ≤ later
    → length (select (is_active_session user.id later) t'.auth_sessions)
      ≤ max_active_sessions_per_user
issue-Bounded hash_session_token user session_id raw_token ttl now later t t' h after =
    subst
      (λ (x : IdentityTables).
        length (select (is_active_session user.id later) x.auth_sessions)
        ≤ max_active_sessions_per_user)
      (sym (issue_steps hash_session_token user session_id raw_token ttl now t t' h))
      (ground (arith, room user.id now later t.auth_sessions after))

-- In the tables that the issue of a session leaves, its token loads, at any time before the session
-- expires, the user of the session with the Telegram identity, where both have a row.
pub issue-load :
    (hash_session_token : ℕ → ℕ) (user : User) (session_id raw_token ttl now later : ℕ)
    (t t' : IdentityTables) (u : User) (i : TelegramIdentity)
    → issue_auth_session hash_session_token user session_id raw_token ttl now t ≡ ok t'
    → find_user user.id t.users ≡ some u
    → find_identity user.id t.identities ≡ some i
    → later < now + ttl
    → load_auth_context hash_session_token raw_token later t'
      ≡ some (record {
        session = new_session hash_session_token user session_id raw_token ttl now;
        user = u;
        identity = i;
      })
unfolding load_auth_context
issue-load hash_session_token user session_id raw_token ttl now later t t' u i h here known before =
    ap (load_auth_context hash_session_token raw_token later)
      (issue_steps hash_session_token user session_id raw_token ttl now t t' h)
    ∙ ground (arith, here, known, before, ==_refl (hash_session_token raw_token))
