-- ===== src/App/Publication/Renewal.antt =====
-- A login and a refresh of the program, whose refresher publishes through the runtime.
use kfadapter.Base.{ℕ}
use kfadapter.Base.Bytes.{Bytes}
use kfadapter.State.Manager.{Manager}
use kfadapter.State.Manager.Installation.{Follows}
use kfadapter.Kuaifan.Refresh.Publication.{Refresher, Remote, refresh_account, login_account}
use kfadapter.Kuaifan.Refresh.Publication.Renewal.{Renewed, settled-Renewed}
use kfadapter.App.Publication.{Runtime, publisher}
use kfadapter.App.Publication.Settled.{publisher-Settled}

-- The refresher with the function that the program gives it.
abbrev pub published_by : Runtime → Refresher → Refresher
published_by w x = record x { commit_snapshot = publisher w }

-- A refresh and a login through the runtime's publication end in one of two ways. Without an error the
-- subscription in force now may follow the one before: any where there was none, the same generation
-- and keys for the same or the first account, the next generation and two new keys for another. The call
-- has published a snapshot of the next generation, which passed every check of the manager's `Commit`
-- for the account of that subscription, and the manager is ready and free for the next operation. With
-- an error, of whatever kind and at whatever step, the generation, the nodes, the selectors, the
-- subscription and its key are the ones that were in force. No other call of the manager runs between.
pub renewal-lem :
    (w : Runtime) (x : Refresher) (remote : Remote) (now : ℕ) (display : Bytes) (m : Manager)
    → Renewed
        (published_by w x)
        w.primitives.hmac
        w.mclock
        Follows
        m
        (refresh_account (published_by w x) remote now m)
      × Renewed
          (published_by w x)
          w.primitives.hmac
          w.mclock
          Follows
          m
          (login_account (published_by w x) remote display m)
renewal-lem w x remote now display m =
    settled-Renewed (published_by w x) w.primitives.hmac w.mclock Follows (publisher-Settled w)
      remote now display m
