-- ===== src/Web/Sessions/Sound.antt =====
-- What the store of browser sessions keeps. `creating` are the sessions that a call of `create` has
-- reserved and not yet settled, and `drafts` the channels that it made for sessions not reserved yet.
use kfadapter.Base.{
  ℕ, suc, ◌+◌, ◌≤◌, ◌≡◌, refl, true, List, [], ◌∷◌, Option, none, some, length, if◌then◌else◌, ltb,
  arith, Bool-cases, inl, inr,
}
use kfadapter.Base.Bytes.{Bytes}
use kfadapter.Base.Dict.{lookup, delete}
use kfadapter.Base.Dict.Keys.{
  has_key, unique_keys, unique_keys-delete, has_key-delete, length-delete,
}
use kfadapter.Web.Access.{Attempts, trim_access}
use kfadapter.Web.Sessions.{
  BrowserSession, LoginAttempt, Store, remove_session, remove_found, remove_expired, expired, prune,
  keep_active, trim_logins,
}
use kfadapter.Web.Sessions.Channels.{
  count, occurs, count-delete, has_key-keep_active, unique_keys-keep_active, has_key-trim_logins,
  unique_keys-trim_logins,
}

abbrev pub Creating : Type 0
Creating = List (Bytes × BrowserSession)

abbrev pub tokens : Creating → List Bytes
tokens [] = []
tokens ((token, b) ∷ c) = token ∷ tokens c

-- One for a channel that was made.
abbrev pub made : ℕ → ℕ → ℕ
made d channels = if ltb d channels then 1 else 0

-- One session for a token; attempts only of sessions; a pending token for each session that is being
-- created, and room for it; every channel has one place: a session, one that is being created, a draft, or the
-- closed channels, once.
pub record IsSound (s : Store) (creating : Creating) (drafts : List ℕ) : Type 0 where
  pub one_session : unique_keys s.sessions ≡ true
  pub one_attempt : unique_keys s.login_attempts ≡ true
  pub one_creation : unique_keys creating ≡ true
  pub active : (k : Bytes) → has_key k s.login_attempts ≡ true → has_key k s.sessions ≡ true
  pub reserved_tokens : s.pending ≡ tokens creating
  pub room : length s.sessions + length creating ≤ s.max
  pub one_place :
      (d : ℕ)
      → count d s.sessions + count d creating + occurs d drafts + occurs d s.closed
        ≤ made d s.channels

-- Other attempts.
pub attempts-IsSound :
    (s : Store) (c : Creating) (ds : List ℕ) (l : List (Bytes × LoginAttempt)) (a : Attempts)
    → IsSound s c ds
    → unique_keys l ≡ true
    → ((k : Bytes) → has_key k l ≡ true → has_key k s.sessions ≡ true)
    → IsSound (record s { access_attempts = a; login_attempts = l }) c ds
attempts-IsSound s c ds l a i one act = record {
  one_session = i.one_session;
  one_attempt = one;
  one_creation = i.one_creation;
  active = act;
  reserved_tokens = i.reserved_tokens;
  room = i.room;
  one_place = i.one_place;
}

pub forget-IsSound :
    (s : Store) (c : Creating) (ds : List ℕ) (token : Bytes)
    → IsSound s c ds
    → IsSound (record s { login_attempts = delete token s.login_attempts }) c ds
forget-IsSound s c ds token i =
    attempts-IsSound s c ds (delete token s.login_attempts) s.access_attempts i
      (unique_keys-delete token s.login_attempts i.one_attempt)
      (λ k h. i.active k (ground (arith, has_key-delete token k s.login_attempts)))

remove_found-IsSound :
    (token : Bytes) (o : Option BrowserSession) (s : Store) (c : Creating) (ds : List ℕ)
    → lookup token s.sessions ≡ o
    → IsSound s c ds
    → IsSound (remove_found token o s) c ds
unfolding remove_found
remove_found-IsSound token none s c ds e i = forget-IsSound s c ds token i
remove_found-IsSound token (some b) s c ds e i = record {
  one_session = unique_keys-delete token s.sessions i.one_session;
  one_attempt = unique_keys-delete token s.login_attempts i.one_attempt;
  one_creation = i.one_creation;
  active = λ k h. ground (
    arith,
    has_key-delete token k s.login_attempts,
    has_key-delete token k s.sessions,
    i.active k,
  );
  reserved_tokens = i.reserved_tokens;
  room = omega (arith, i.room, length-delete token s.sessions);
  one_place = λ d. omega (arith, i.one_place d, count-delete d token b s.sessions i.one_session e);
}

pub remove_session-IsSound :
    (token : Bytes) (s : Store) (c : Creating) (ds : List ℕ)
    → IsSound s c ds
    → IsSound (remove_session token s) c ds
unfolding remove_session
remove_session-IsSound token s c ds i =
    remove_found-IsSound token (lookup token s.sessions) s c ds refl i

remove_expired-IsSound :
    (now : ℕ) (m : List (Bytes × BrowserSession)) (s : Store) (c : Creating) (ds : List ℕ)
    → IsSound s c ds
    → IsSound (remove_expired now m s).1 c ds
unfolding remove_expired
remove_expired-IsSound now [] s c ds i = i
remove_expired-IsSound now ((token, b) ∷ m) s c ds i = elim (Bool-cases (expired now b)) [
  | inl e ↦ rw e (
      remove_expired-IsSound now m (remove_session token s) c ds
        (remove_session-IsSound token s c ds i))
  | inr e ↦ rw e (remove_expired-IsSound now m s c ds i)
]

pub prune-IsSound :
    (clock : ℕ → ℕ) (s : Store) (c : Creating) (ds : List ℕ)
    → IsSound s c ds
    → IsSound (prune clock s).1 c ds
unfolding prune
prune-IsSound clock s c ds i =
    let r = (remove_expired (clock 0) s.sessions s).1 in
    let j = remove_expired-IsSound (clock 0) s.sessions s c ds i in
    let kept = keep_active r.sessions r.login_attempts in
    attempts-IsSound r c ds (trim_logins (clock 2) r.max kept)
      (trim_access (clock 1) r.access_attempts) j
      (unique_keys-trim_logins (clock 2) r.max kept
        (unique_keys-keep_active r.sessions r.login_attempts j.one_attempt))
      (λ k h.
        (has_key-keep_active k r.sessions r.login_attempts
          (has_key-trim_logins k (clock 2) r.max kept h)).1)

-- A channel that was just made is in no other place.
pub draft-IsSound :
    (s : Store) (c : Creating)
    → IsSound s c []
    → IsSound (record s { channels = suc s.channels }) c (s.channels ∷ [])
draft-IsSound s c i = record {
  one_session = i.one_session;
  one_attempt = i.one_attempt;
  one_creation = i.one_creation;
  active = i.active;
  reserved_tokens = i.reserved_tokens;
  room = i.room;
  one_place = λ d. ground (arith, i.one_place d);
}

pub undraft-IsSound : (s : Store) (c : Creating) (ds : List ℕ) → IsSound s c ds → IsSound s c []
undraft-IsSound s c ds i = record {
  one_session = i.one_session;
  one_attempt = i.one_attempt;
  one_creation = i.one_creation;
  active = i.active;
  reserved_tokens = i.reserved_tokens;
  room = i.room;
  one_place = λ d. omega (arith, i.one_place d);
}
