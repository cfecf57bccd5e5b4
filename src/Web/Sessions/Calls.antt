-- ===== src/Web/Sessions/Calls.antt =====
-- internal/web/security.go: the calls that create, look up and revoke a browser session.
use kfadapter.Base.{
  ℕ, zero, suc, ◌+◌, ◌*◌, Bool, true, false, not, ◌&&◌, ◌||◌, List, [], ◌∷◌, ◌++◌, Option, none,
  some, length, if◌then◌else◌, ltb, leb, ◌==◌, is_empty,
}
use kfadapter.Base.Bytes.{Bytes, bytes_eq}
use kfadapter.Base.Dict.{lookup, insert, member}
use kfadapter.Web.Sessions.{BrowserSession, Store, has_session, remove_session, expired, prune}

pub data Reservation : Type 0 where
  limit_reached collision : Reservation
  reserved : BrowserSession → Reservation

-- `delete(s.pending, token)`
abbrev pub delete_pending : Bytes → List Bytes → List Bytes
delete_pending token [] = []
delete_pending token (p ∷ ps) =
    let rest = delete_pending token ps in if bytes_eq p token then rest else p ∷ rest

-- A round of `create` up to its reservation: what it came to, the tokens that the persistence is
-- told to delete, and the store. The session is made, with its channel, before the lock is taken.
unfoldable pub reserve : (ℕ → ℕ) → Bytes → Bytes → Store → Reservation × List Bytes × Store
reserve clock token csrf s =
    let session : BrowserSession = record {
      csrf = csrf;
      expires_at = clock 0 + s.ttl;
      done = s.channels;
    } in
    let pruned = prune (λ i. clock (suc i)) (record s { channels = suc s.channels }) in
    if leb pruned.1.max (length pruned.1.sessions + length pruned.1.pending)
    then (limit_reached, pruned.0, pruned.1)
    else if has_session token pruned.1 || member token pruned.1.pending
    then (collision, pruned.0, pruned.1)
    else (reserved session, pruned.0, record pruned.1 { pending = token ∷ pruned.1.pending })

-- The rest of the round, after the persistence has saved the session or not: whether it is usable.
unfoldable pub settle_create : (ℕ → ℕ) → Bytes → BrowserSession → Bool → Store → Bool × Store
settle_create clock token session saved s =
    let freed = record s { pending = delete_pending token s.pending } in
    if saved && ltb (clock 0) session.expires_at
    then (true, record freed { sessions = insert token session freed.sessions })
    else (false, freed)

pub data CreateError : Type 0 where
  no_entropy session_limit token_collision not_saved expired_unsaved : CreateError

pub data Created : Type 0 where
  created : Bytes → BrowserSession → Created
  refused : CreateError → Created

abbrev pub created_or : Bytes → BrowserSession → Bool → Bool → Created
created_or token session true true = created token session
created_or token session true false = refused CreateError.expired_unsaved
created_or token session false usable = refused CreateError.not_saved

-- What is deleted again when the session expired while it was saved.
abbrev pub deleted_again : Bytes → Bool → Bool → List Bytes
deleted_again token saved usable = if saved && not usable then token ∷ [] else []

unfoldable pub finish_create :
    (ℕ → ℕ) → Bytes → BrowserSession → Bool → List Bytes → Store → Created × List Bytes × Store
unfolding settle_create
finish_create clock token session saved deleted s =
    let r = settle_create clock token session saved s in
    (created_or token session saved r.0, deleted ++ deleted_again token saved r.0, r.1)

abbrev pub Outcome : Type 0
Outcome = Created × List Bytes × Store

abbrev pub Saves : Type 0
Saves = Bytes → Bytes → ℕ → ℕ → Bool

-- A round after its reservation; `again` is the next.
unfoldable pub after_reservation :
    (Store → Outcome) → (ℕ → ℕ) → Saves → Bytes → Bytes → Reservation → List Bytes → Store → Outcome
unfolding finish_create
after_reservation again clock save token csrf limit_reached deleted s =
    (refused CreateError.session_limit, deleted, s)
after_reservation again clock save token csrf collision deleted s =
    ((again s).0, deleted ++ (again s).1, (again s).2)
after_reservation again clock save token csrf (reserved b) deleted s =
    finish_create (λ k. clock (4 + k)) token b (save token csrf b.expires_at s.max) deleted s

-- A round, with the two tokens that were drawn for it.
unfoldable pub create_round :
    (Store → Outcome) → (ℕ → ℕ) → Saves → Option Bytes → Option Bytes → Store → Outcome
unfolding reserve after_reservation
create_round again clock save none csrf s = (refused CreateError.no_entropy, [], s)
create_round again clock save (some token) none s = (refused CreateError.no_entropy, [], s)
create_round again clock save (some token) (some csrf) s =
    let r = reserve clock token csrf s in after_reservation again clock save token csrf r.0 r.1 r.2

-- `random i` is the i-th token that is read and `clock i` the clock of the i-th round; `save` says
-- whether the persistence saves. No other call runs between.
unfoldable pub create_rounds : ℕ → ℕ → (ℕ → Option Bytes) → (ℕ → ℕ → ℕ) → Saves → Store → Outcome
unfolding create_round
create_rounds zero i random clock save s = (refused CreateError.token_collision, [], s)
create_rounds (suc n) i random clock save s =
    let again = λ (x : Store). create_rounds n (suc i) random clock save x in
    create_round again (clock i) save (random (2 * i)) (random (suc (2 * i))) s

unfoldable pub create : (ℕ → Option Bytes) → (ℕ → ℕ → ℕ) → Saves → Store → Outcome
unfolding create_rounds
create random clock save s = create_rounds 4 0 random clock save s

-- Three calls on one session; an expired session is removed and its token deleted.
abbrev pub Found : Type 0
Found = Option BrowserSession

unfoldable pub valid_found : ℕ → Bytes → Found → Store → Found × List Bytes × Store
valid_found now token none s = (none, [], s)
valid_found now token (some b) s =
    if expired now b then (none, token ∷ [], remove_session token s) else (some b, [], s)

unfoldable pub valid : (ℕ → ℕ) → Bytes → Store → Found × List Bytes × Store
unfolding valid_found
valid clock token s =
    if is_empty token
    then (none, [], s)
    else valid_found (clock 0) token (lookup token s.sessions) s

-- `deleted` says whether the persistence deleted the session.
unfoldable pub revoke : Bytes → Bool → Store → Bool × Store
revoke token deleted s =
    if is_empty token
    then (true, s)
    else if not deleted
    then (false, s)
    else (true, remove_session token s)

unfoldable pub matches_found :
    ℕ → Bytes → BrowserSession → Found → Store → Bool × List Bytes × Store
matches_found now token expected none s = (false, [], s)
matches_found now token expected (some b) s =
    if expired now b
    then (false, token ∷ [], remove_session token s)
    else (b.done == expected.done, [], s)

-- Every session that the store gave out has a channel.
unfoldable pub matches : (ℕ → ℕ) → Bytes → BrowserSession → Store → Bool × List Bytes × Store
unfolding matches_found
matches clock token expected s =
    if is_empty token
    then (false, [], s)
    else matches_found (clock 0) token expected (lookup token s.sessions) s
