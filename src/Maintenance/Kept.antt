-- ===== src/Maintenance/Kept.antt =====
-- What the deletion of old sessions keeps.
use dc_inventory.Prelude.{
  ℕ, zero, suc, ◌-◌, ◌*◌, ◌≤◌, ◌≡◌, refl, sym, ◌∙◌, true, false, ◌&&◌, ◌||◌, not, List, [], ◌∷◌,
  arith,
}
use dc_inventory.Prelude.Tests.{◌==◌}
use dc_inventory.Prelude.Lists.{find, select, take, contains, all, is_nodup}
use dc_inventory.Prelude.Keyed.{selected}
use dc_inventory.Identity.Tables.{AuthSession, IdentityTables}
use dc_inventory.Identity.Sessions.{session_ids, is_live, load_auth_context}
use dc_inventory.Maintenance.{
  is_expired, insert_ended, by_end, retention_candidates, delete_sessions, retain_sessions,
}

contains-insert_ended :
    (k : ℕ) (s : AuthSession) (ss : List AuthSession)
    → contains k (session_ids (insert_ended s ss)) ≡ contains k (session_ids (s ∷ ss))
unfolding insert_ended
contains-insert_ended k s [] = refl
contains-insert_ended k s (t ∷ ts) = ground (arith, contains-insert_ended k s ts)

contains-by_end :
    (k : ℕ) (ss : List AuthSession)
    → contains k (session_ids (by_end ss)) ≡ contains k (session_ids ss)
unfolding by_end
contains-by_end k [] = refl
contains-by_end k (s ∷ ss) =
    contains-insert_ended k s (by_end ss) ∙ ground (arith, contains-by_end k ss)

contains-take :
    (k i : ℕ) (ss : List AuthSession)
    → contains k (session_ids (take i ss)) ≡ true
    → contains k (session_ids ss) ≡ true
contains-take k zero ss h = absurd (ground (arith, h))
contains-take k (suc i) [] h = absurd (ground (arith, h))
contains-take k (suc i) (s ∷ ss) h = ground (arith, h, contains-take k i ss)

candidate_expired :
    (cutoff batch_size k : ℕ) (ss : List AuthSession)
    → contains k (session_ids (retention_candidates cutoff batch_size ss)) ≡ true
    → contains k (session_ids (select (is_expired cutoff) ss)) ≡ true
unfolding retention_candidates
candidate_expired cutoff batch_size k ss h =
    sym (contains-by_end k (select (is_expired cutoff) ss))
    ∙ contains-take k batch_size (by_end (select (is_expired cutoff) ss)) h

expired_dead :
    (cutoff now : ℕ) (s : AuthSession)
    → cutoff ≤ now
    → is_expired cutoff s ≡ true
    → is_live now s ≡ false
unfolding is_expired
expired_dead cutoff now s h e = ground (arith, h, e)

find_kept :
    (hash cutoff now : ℕ) (ids : List ℕ) (ss : List AuthSession)
    → cutoff ≤ now
    → all (λ s. not (contains s.id ids) || is_expired cutoff s) ss ≡ true
    → find (λ s. s.token_hash == hash && is_live now s) (select (λ s. not (contains s.id ids)) ss)
      ≡ find (λ s. s.token_hash == hash && is_live now s) ss
find_kept hash cutoff now ids [] h a = refl
find_kept hash cutoff now ids (s ∷ ss) h a =
    ground (arith, a, expired_dead cutoff now s h, find_kept hash cutoff now ids ss h)

-- The deletion of old sessions logs nobody out: where the identifiers of the sessions differ, every
-- token loads, at the time of the deletion and later, the context that it loaded before.
pub retain-load :
    (hash_session_token : ℕ → ℕ) (retention_days batch_size now later raw_token : ℕ)
    (t : IdentityTables)
    → is_nodup (session_ids t.auth_sessions) ≡ true
    → now ≤ later
    → load_auth_context hash_session_token raw_token later
        (retain_sessions retention_days batch_size now t)
      ≡ load_auth_context hash_session_token raw_token later t
unfolding load_auth_context retain_sessions delete_sessions
retain-load hash_session_token retention_days batch_size now later raw_token t unique h =
    let cutoff = now - retention_days * 86400 in
    let ids = session_ids (retention_candidates cutoff batch_size t.auth_sessions) in
    rw
      (find_kept (hash_session_token raw_token) cutoff later ids t.auth_sessions (omega (arith, h))
        (selected (λ s. s.id) (is_expired cutoff) ids t.auth_sessions unique
          (λ k _ picked. candidate_expired cutoff batch_size k t.auth_sessions picked)))
      refl
