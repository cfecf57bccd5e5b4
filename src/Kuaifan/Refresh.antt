-- ===== src/Kuaifan/Refresh.antt =====
-- internal/kuaifan/refresh.go: from the two profiles of an account to one snapshot. The selector builder is
-- the kind that knows its generations, as the program's coordinator does. SHA-256 and Base64 are
-- arguments; `clock k` is the k-th reading of the clock. A user number that is not positive is 0.
use kfadapter.Base.{
  ℕ, zero, suc, ◌+◌, ◌-◌, ◌*◌, ◌%◌, ◌^◌, ◌≤◌, ◌<◌, ◌≡◌, refl, Bool, true, false, ◌&&◌, ◌||◌, not,
  List, [], ◌∷◌, ◌++◌, Option, none, some, is_empty, length, take, leb, ltb, ◌==◌, if◌then◌else◌,
}
use kfadapter.Base.Bytes.{Bytes, codes, bytes_eq}
use kfadapter.Base.Dict.{lookup, insert, member}
use kfadapter.State.Types.{
  ClientProfile, ios, windows, profile_valid, Node, NodeRef, Selectors, RuntimeSnapshot,
  SessionSecrets, ClientSessions, AccountSummary, unknown, udp_unavailable, StateError,
}
use kfadapter.State.Manager.{Manager, u64}
use kfadapter.Selector.Identity.{CanonicalIdentity, NodeIdentity, decimal, canonicalize}
use kfadapter.Selector.Identity as Identity
use kfadapter.Selector.Build.{BuildResult}
mod Examples
pub mod Retry
pub mod Building
pub mod Nodes
pub mod Publication

pub record AccountProfile : Type 0 where
  pub is_vip : Bool
  pub vip_ends_at : ℕ

-- The base address is not read here.
pub record LoginSession : Type 0 where
  pub user_id : ℕ
  pub token : Bytes
  pub profile : AccountProfile

pub record Authority : Type 0 where
  pub user_id : Bytes
  pub order_id : Bytes
  pub encrypt_key : Bytes
  pub encrypt_type : Bytes
  pub provider_token : Bytes
  pub provider_extension : Bytes

pub record Group : Type 0 where
  pub id : Bytes
  pub name : Bytes

pub record Line : Type 0 where
  pub label : Bytes
  pub host : Bytes
  pub port : ℕ
  pub provider : Bytes
  pub group_id : Bytes
  pub group_name : Bytes
  pub model : Bytes
  pub weight : ℕ
  pub auto : Bool
  pub eligible : Bool

pub record Lines : Type 0 where
  pub groups : List Group
  pub lines : List Line

pub record CompleteProfile : Type 0 where
  pub session : LoginSession
  pub authority : Authority
  pub lines : Lines

-- A builder: its credential generations, and a build for one of them.
pub record Builder : Type 0 where
  pub generations : List ℕ
  pub build : ℕ → List Node → Selectors → ℕ → Option BuildResult

-- The errors of these functions; `rejected` is one of the manager.
pub data RefreshError : Type 0 where
  no_session authority_expired schema selectors_failed remote_failed not_committed : RefreshError
  rejected : StateError → RefreshError

pub data Answer {ℓ} (A : Type ℓ) : Type ℓ where
  done : A → Answer A
  fails : RefreshError → Answer A

-- `parallelSessions` after both calls: the first error to arrive, or one user's two sessions.
unfoldable pub same_user : LoginSession → LoginSession → Answer (LoginSession × LoginSession)
same_user a b =
    if a.user_id == 0 || not (a.user_id == b.user_id)
    then fails RefreshError.schema
    else done (a, b)

-- The check at the end of `fetchAuthorityAndLines`.
unfoldable pub complete_branch : LoginSession → Authority → Lines → Answer CompleteProfile
complete_branch session authority lines =
    if is_empty authority.provider_token || is_empty session.token || is_empty lines.lines
    then fails RefreshError.schema
    else done (record { session = session; authority = authority; lines = lines })

-- The earlier of two ends, where 0 is none.
abbrev pub earlier_end : ℕ → ℕ → ℕ
earlier_end a b = if a == 0 || (not (b == 0) && ltb b a) then b else a

unfoldable pub aggregate_account_display :
    Bytes → CompleteProfile → CompleteProfile → Answer AccountSummary
aggregate_account_display display first second =
    let is_vip = first.session.profile.is_vip && second.session.profile.is_vip in
    let end = earlier_end first.session.profile.vip_ends_at second.session.profile.vip_ends_at in
    if is_empty display
      || first.session.user_id == 0
      || not (first.session.user_id == second.session.user_id)
    then fails RefreshError.schema
    else if is_vip && end == 0
    then fails RefreshError.schema
    else done
        (record { display = display; is_vip = is_vip; vip_ends_at = if is_vip then end else 0 })

-- Ten digits are enough for a 32-bit number.
unfoldable pub session_secrets : CompleteProfile → SessionSecrets
session_secrets p = record {
  user_id = decimal 10 p.session.user_id;
  login_token = p.session.token;
  provider_token = p.authority.provider_token;
  tunnel_password = p.authority.encrypt_key;
  tunnel_method = p.authority.encrypt_type;
  provider_extension = p.authority.provider_extension;
}

-- The nodes of one profile that were not seen, and what is seen then.
pub merge_one : List Bytes → List Node → List Node × List Bytes
merge_one seen [] = ([], seen)
merge_one seen (n ∷ ns) =
    let rest = merge_one (n.id ∷ seen) ns in
    let skipped = merge_one seen ns in if member n.id seen then skipped else (n ∷ rest.0, rest.1)

unfoldable pub merge_profile_nodes : List Node → List Node → List Node
unfolding merge_one
merge_profile_nodes ios_nodes windows_nodes =
    let first = merge_one [] ios_nodes in first.0 ++ (merge_one first.1 windows_nodes).0
