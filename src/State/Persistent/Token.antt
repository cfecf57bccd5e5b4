-- ===== src/State/Persistent/Token.antt =====
-- internal/state/types.go: the access token is set once and verified after.
use kfadapter.Base.{
  ◌≡◌, refl, Bool, true, false, not, [], Option, arith, Bool-cases, Option-cases, inl, inr, sym, ap,
  ◌∙◌, subst, none, some, length, if◌then◌else◌,
}
use kfadapter.Base.Bytes.{Bytes, bytes_eq}
use kfadapter.Base.Text.{trim_space}
use kfadapter.State.Types.{}
use kfadapter.State.Persistent.{
  Primitives, AccessTokenVerifier, PersistentState, Answer, done, fails, invalid_access_token,
  already_initialized, no_randomness, production_parameters, valid_access_token, verifier_valid,
}
use kfadapter.Base.Bytes.{bytes_eq_refl}

-- `NewAccessTokenVerifier`, with the salt that is drawn.
unfoldable pub new_access_token_verifier :
    Primitives → Option Bytes → Bytes → Answer AccessTokenVerifier
new_access_token_verifier x drawn token =
    let t = trim_space token in
    if not (valid_access_token t) then fails invalid_access_token else (elim drawn [
      | none ↦ fails no_randomness
      | some salt ↦
          done (record { parameters = production_parameters; salt = salt; hash = x.argon t salt })
    ])

-- `VerifyAccessToken` on a verifier that is there.
unfoldable pub verify_token : Primitives → AccessTokenVerifier → Bytes → Bool
verify_token x v token =
    let t = trim_space token in
    if not (verifier_valid v)
    then false
    else if not (valid_access_token t)
    then false
    else bytes_eq (x.argon t v.salt) v.hash

unfoldable pub verify_access_token : Primitives → PersistentState → Bytes → Bool
unfolding verify_token
verify_access_token x p token = elim p.access_token_verifier [
  | none ↦ false
  | some v ↦ verify_token x v token
]

-- `BindingKey`, empty where the source returns nil.
unfoldable pub binding_key : AccessTokenVerifier → Bytes
binding_key v = if verifier_valid v then v.hash else []

abbrev pub with_verifier : PersistentState → Answer AccessTokenVerifier → Answer PersistentState
with_verifier p (done v) = done (record p { access_token_verifier = some v })
with_verifier p (fails e) = fails e

-- `SetAccessToken`: the state after, or the error with the state as it was.
unfoldable pub set_access_token :
    Primitives → Option Bytes → Bytes → PersistentState → Answer PersistentState
unfolding new_access_token_verifier
set_access_token x drawn token p = elim p.access_token_verifier [
  | some v ↦ fails already_initialized
  | none ↦ with_verifier p (new_access_token_verifier x drawn token)
]

abbrev verifier_or : AccessTokenVerifier → Answer AccessTokenVerifier → AccessTokenVerifier
verifier_or v (done w) = w
verifier_or v (fails e) = v

abbrev state_or : PersistentState → Answer PersistentState → PersistentState
state_or p (done q) = q
state_or p (fails e) = p

-- Argon2id gives the 32 bytes that it is asked for, and a salt has 16.
pub record Sizes (x : Primitives) (drawn : Option Bytes) : Type 0 where
  pub argon_size : (token salt : Bytes) → length (x.argon token salt) ≡ 32
  pub salt_size : (salt : Bytes) → drawn ≡ some salt → length salt ≡ 16

abbrev pub set_verifier : Primitives → Bytes → Bytes → AccessTokenVerifier
set_verifier x token salt = record {
  parameters = production_parameters;
  salt = salt;
  hash = x.argon (trim_space token) salt;
}

new_access_token_verifier-done :
    (x : Primitives) (drawn : Option Bytes) (token : Bytes) (v : AccessTokenVerifier)
    → new_access_token_verifier x drawn token ≡ done v
    → (valid_access_token (trim_space token) ≡ true)
      × ((salt : Bytes) × (drawn ≡ some salt) × (v ≡ set_verifier x token salt))
unfolding new_access_token_verifier
new_access_token_verifier-done x none token v e =
    elim (Bool-cases (valid_access_token (trim_space token))) [
      | inl g ↦ absurd (ground (arith, rw g at e))
      | inr g ↦ absurd (ground (arith, rw g at e))
    ]
new_access_token_verifier-done x (some salt) token v e =
    elim (Bool-cases (valid_access_token (trim_space token))) [
      | inl g ↦
          let made : done (set_verifier x token salt) ≡ done v = rw g at e in
          (g, (salt, refl, sym (ap (λ a. verifier_or (set_verifier x token salt) a) made)))
      | inr g ↦ absurd (ground (arith, rw g at e))
    ]

with_verifier-done :
    (p p' : PersistentState) (r : Answer AccessTokenVerifier)
    → with_verifier p r ≡ done p'
    → (v : AccessTokenVerifier) × (r ≡ done v) × (p' ≡ record p { access_token_verifier = some v })
with_verifier-done p p' (done v) e = (v, refl, sym (ap (λ a. state_or p a) e))
with_verifier-done p p' (fails f) e = absurd (ground (arith, e))

verify-set_verifier :
    (x : Primitives) (drawn : Option Bytes) (token given salt : Bytes)
    → Sizes x drawn
    → drawn ≡ some salt
    → valid_access_token (trim_space token) ≡ true
    → trim_space given ≡ trim_space token
    → verify_token x (set_verifier x token salt) given ≡ true
unfolding verify_token verifier_valid
verify-set_verifier x drawn token given salt z e g same =
    rw (same, z.argon_size (trim_space token) salt, z.salt_size salt e, g)
      (bytes_eq_refl (x.argon (trim_space token) salt))

-- A state that one token has claimed: it is verified in every text that trims to it, and no token
-- can be set again.
abbrev pub Claimed : Primitives → Bytes → PersistentState → Type 0
Claimed x token p =
    ((given : Bytes) → trim_space given ≡ trim_space token → verify_access_token x p given ≡ true)
    × ((drawn : Option Bytes) (other : Bytes)
        → set_access_token x drawn other p ≡ fails already_initialized)

set_verifier-Claimed :
    (x : Primitives) (drawn : Option Bytes) (token salt : Bytes) (p : PersistentState)
    → Sizes x drawn
    → drawn ≡ some salt
    → valid_access_token (trim_space token) ≡ true
    → Claimed x token (record p { access_token_verifier = some (set_verifier x token salt) })
unfolding set_access_token verify_access_token
set_verifier-Claimed x drawn token salt p z e g =
    (λ given same. verify-set_verifier x drawn token given salt z e g same, λ d o. refl)

-- Setting the access token succeeds only where none was set. Then a text that is the same token when
-- trimmed is verified, and no token can be set again; nothing else of the state changes. Argon2id
-- gives 32 bytes and a salt has 16.
pub set_access_token-once :
    (x : Primitives) (drawn drawn' : Option Bytes) (token given other : Bytes)
    (p p' : PersistentState)
    → Sizes x drawn
    → set_access_token x drawn token p ≡ done p'
    → trim_space given ≡ trim_space token
    → (p.access_token_verifier ≡ none)
      × (verify_access_token x p' given ≡ true)
      × (set_access_token x drawn' other p' ≡ fails already_initialized)
      × (record p' { access_token_verifier = none } ≡ p)
unfolding set_access_token
set_access_token-once x drawn drawn' token given other p p' z e trimmed =
    elim (Option-cases p.access_token_verifier) [
      | inr (v, h) ↦ absurd (ground (arith, rw h at e))
      | inl h ↦
          let r = with_verifier-done p p' (new_access_token_verifier x drawn token) (rw h at e) in
          let n = new_access_token_verifier-done x drawn token r.0 r.1 in
          let same : record p { access_token_verifier = some (set_verifier x token n.1.0) } ≡ p' =
            sym (r.2 ∙ ap (λ w. record p { access_token_verifier = some w }) n.1.2) in
          let c : Claimed x token p' =
            subst (Claimed x token) same (set_verifier-Claimed x drawn token n.1.0 p z n.1.1 n.0) in
          let restored : record p' { access_token_verifier = none } ≡ p =
            ap (λ (q : PersistentState). record q { access_token_verifier = none }) (sym same)
            ∙ ap (λ o. record p { access_token_verifier = o }) (sym h) in
          (h, c.0 given trimmed, c.1 drawn' other, restored)
    ]
