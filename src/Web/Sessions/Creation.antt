-- ===== src/Web/Sessions/Creation.antt =====
-- The two halves of a round of `create` keep the store sound.
use kfadapter.Base.{
  ℕ, suc, ◌+◌, ◌<◌, ◌≡◌, refl, ap, ◌∙◌, Bool, false, ◌&&◌, ◌||◌, List, [], ◌∷◌, some, length, ltb,
  leb, arith, Bool-cases, inl, inr,
}
use kfadapter.Base.Bytes.{Bytes, bytes_eq}
use kfadapter.Base.Dict.{lookup, insert, delete, member, length-insert}
use kfadapter.Base.Dict.Keys.{
  has_key, unique_keys-insert, unique_keys-delete, has_key-insert, lookup-some-has_key,
  length-delete, length-delete_present, bytes_eq_sym,
}
use kfadapter.Web.Sessions.{BrowserSession, Store, has_session, prune}
use kfadapter.Web.Sessions.Channels.{count-delete, count-insert}
use kfadapter.Web.Sessions.Calls.{
  Reservation, limit_reached, collision, reserved, reserve, settle_create, delete_pending,
}
use kfadapter.Web.Sessions.Sound.{
  IsSound, Creating, tokens, prune-IsSound, draft-IsSound, undraft-IsSound,
}

member-tokens : (token : Bytes) (c : Creating) → member token (tokens c) ≡ has_key token c
member-tokens token [] = refl
member-tokens token ((k, b) ∷ c) = ground (arith, bytes_eq_sym token k, member-tokens token c)

delete_pending-tokens :
    (token : Bytes) (c : Creating) → delete_pending token (tokens c) ≡ tokens (delete token c)
unfolding delete
delete_pending-tokens token [] = refl
delete_pending-tokens token ((k, b) ∷ c) = elim (Bool-cases (bytes_eq k token)) [
  | inl e ↦ rw e (delete_pending-tokens token c)
  | inr e ↦ rw e (ap (λ ks. k ∷ ks) (delete_pending-tokens token c))
]

length-tokens : (c : Creating) → length (tokens c) ≡ length c
length-tokens [] = refl
length-tokens ((k, b) ∷ c) = ap suc (length-tokens c)

-- The sessions being created after a reservation.
abbrev pub with_reserved : Bytes → Reservation → Creating → Creating
with_reserved token limit_reached c = c
with_reserved token collision c = c
with_reserved token (reserved b) c = (token, b) ∷ c

reserved-IsSound :
    (s : Store) (c : Creating) (token : Bytes) (b : BrowserSession)
    → IsSound s c (b.done ∷ [])
    → length s.sessions + length s.pending < s.max
    → member token s.pending ≡ false
    → IsSound (record s { pending = token ∷ s.pending }) ((token, b) ∷ c) []
reserved-IsSound s c token b i room fresh = record {
  one_session = i.one_session;
  one_attempt = i.one_attempt;
  one_creation =
      ground (arith, member-tokens token c, ap (member token) i.reserved_tokens, i.one_creation);
  active = i.active;
  reserved_tokens = ap (λ ps. token ∷ ps) i.reserved_tokens;
  room =
      omega (arith, room, ap (λ (ps : List Bytes). length ps) i.reserved_tokens, length-tokens c);
  one_place = λ d. omega (arith, i.one_place d);
}

pub reserve-IsSound :
    (clock : ℕ → ℕ) (token csrf : Bytes) (s : Store) (c : Creating)
    → IsSound s c []
    → IsSound
        (reserve clock token csrf s).2
        (with_reserved token (reserve clock token csrf s).0 c)
        []
unfolding reserve
reserve-IsSound clock token csrf s c i =
    let p = (prune (λ n. clock (suc n)) (record s { channels = suc s.channels })).1 in
    let b : BrowserSession = record {
      csrf = csrf;
      expires_at = clock 0 + s.ttl;
      done = s.channels;
    } in
    let j =
      prune-IsSound (λ n. clock (suc n)) (record s { channels = suc s.channels }) c
        (s.channels ∷ []) (draft-IsSound s c i) in
    elim (Bool-cases (leb p.max (length p.sessions + length p.pending))) [
      | inl full ↦ rw full (undraft-IsSound p c (s.channels ∷ []) j)
      | inr free ↦ elim (Bool-cases (has_session token p || member token p.pending)) [
        | inl taken ↦ rw (free, taken) (undraft-IsSound p c (s.channels ∷ []) j)
        | inr fresh ↦
            rw (free, fresh) (reserved-IsSound p c token b j (ground arith) (ground arith))
      ]
    ]

stored-IsSound :
    (s : Store) (c : Creating) (token : Bytes) (b : BrowserSession)
    → lookup token c ≡ some b
    → IsSound s c []
    → IsSound
        (record s {
          pending = delete_pending token s.pending;
          sessions = insert token b s.sessions;
        })
        (delete token c)
        []
stored-IsSound s c token b e i = record {
  one_session = unique_keys-insert token b s.sessions i.one_session;
  one_attempt = i.one_attempt;
  one_creation = unique_keys-delete token c i.one_creation;
  active = λ k h. ground (arith, has_key-insert token k b s.sessions, i.active k);
  reserved_tokens = ap (delete_pending token) i.reserved_tokens ∙ delete_pending-tokens token c;
  room = omega (
    arith,
    i.room,
    length-insert token b s.sessions,
    length-delete_present token c (lookup-some-has_key token c b e),
  );
  one_place = λ d. omega (
    arith,
    i.one_place d,
    count-insert d token b s.sessions,
    count-delete d token b c i.one_creation e,
  );
}

freed-IsSound :
    (s : Store) (c : Creating) (token : Bytes) (b : BrowserSession)
    → lookup token c ≡ some b
    → IsSound s c []
    → IsSound (record s { pending = delete_pending token s.pending }) (delete token c) []
freed-IsSound s c token b e i = record {
  one_session = i.one_session;
  one_attempt = i.one_attempt;
  one_creation = unique_keys-delete token c i.one_creation;
  active = i.active;
  reserved_tokens = ap (delete_pending token) i.reserved_tokens ∙ delete_pending-tokens token c;
  room = omega (arith, i.room, length-delete token c);
  one_place = λ d. omega (arith, i.one_place d, count-delete d token b c i.one_creation e);
}

pub settle_create-IsSound :
    (clock : ℕ → ℕ) (token : Bytes) (b : BrowserSession) (saved : Bool) (s : Store) (c : Creating)
    → lookup token c ≡ some b
    → IsSound s c []
    → IsSound (settle_create clock token b saved s).1 (delete token c) []
unfolding settle_create
settle_create-IsSound clock token b saved s c e i =
    elim (Bool-cases (saved && ltb (clock 0) b.expires_at)) [
      | inl usable ↦ rw usable (stored-IsSound s c token b e i)
      | inr unusable ↦ rw unusable (freed-IsSound s c token b e i)
    ]
