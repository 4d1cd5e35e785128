-- ===== src/Wallet.antt =====
-- agent/ssi/walletmgr.go: the manager that keeps a limited number of wallets open. A manager's calls
-- run under its lock, so each is one step; a handle is a reference into `handles`.
pub mod Oldest
pub mod Rules
pub mod Bound
use findy_agent.Common.{
  ℕ, zero, suc, ◌+◌, ◌-◌, String, Bool, true, false, ◌&&◌, Option, none, some, List, [], ◌∷◌, ◌++◌,
  length, ltb, leb, eqb, if◌then◌else◌,
}
use findy_agent.Common.Table.{Table, nat_eq, string_eq, get, put, remove}
use findy_agent.Common.Exec.{
  Error, Outcome, ok, err, panicked, Exec, pure, lift, gets, modify, ◌>>=◌, ◌>>◌,
}

-- `managed.WalletCfg`: its name, and whether it wants backups.
pub record WalletCfg : Type 0 where
  pub unique_id : String
  pub wants_backup : Bool

-- The wallet handle is 0 where the wallet is closed.
pub record Handle : Type 0 where
  pub ts : ℕ
  pub h : ℕ
  pub cfg : WalletCfg

-- The manager, the handles that it has given out, the clock, and what the access manager was sent.
pub record Mgr : Type 0 where
  pub opened : Table String ℕ
  pub handles : List Handle
  pub clock : ℕ
  pub sent : List ℕ

-- The wallet library, and the clock.
pub record Indy : Type 0 where
  pub open_wallet : Mgr → WalletCfg → Outcome ℕ
  pub close_wallet : Mgr → ℕ → Option Error
  pub elapse : Mgr → ℕ

abbrev pub Step : Type 0 → Type 0
Step A = Exec Mgr A

abbrev pub handle_at : List Handle → ℕ → Option Handle
handle_at [] r = none
handle_at (h ∷ hs) zero = some h
handle_at (h ∷ hs) (suc r) = handle_at hs r

abbrev pub set_handle : List Handle → ℕ → Handle → List Handle
set_handle [] r x = []
set_handle (h ∷ hs) zero x = x ∷ hs
set_handle (h ∷ hs) (suc r) x = h ∷ set_handle hs r x

-- Reading a nil handle panics.
unfoldable pub deref : ℕ → Step Handle
deref r m = elim (handle_at m.handles r) [ none ↦ (panicked, m) | some h ↦ (ok h, m) ]

unfoldable pub store : ℕ → Handle → Step (Unit {0})
store r h m = (ok tt, record m { handles = set_handle m.handles r h })

-- findOldest's loop, with `maxDelta + 1` in place of `maxDelta`.
unfoldable pub find_oldest_from : Table String ℕ → List Handle → ℕ → String → ℕ → Outcome String
find_oldest_from [] hs now id max_delta = ok id
find_oldest_from ((s, r) ∷ opened) hs now id max_delta = elim (handle_at hs r) [
  | none ↦ panicked
  | some wallet ↦
      (let later = find_oldest_from opened hs now s (now - wallet.ts + 1) in
        let same = find_oldest_from opened hs now id max_delta in
        if leb wallet.ts now && ltb max_delta (now - wallet.ts + 1) then later else same)
]

-- m.opened[id]: a missing key gives nil.
unfoldable pub opened_at : String → Step ℕ
opened_at id m = elim (get m.opened id) [ none ↦ (panicked, m) | some r ↦ (ok r, m) ]

unfoldable pub delete_opened : String → Step (Unit {0})
delete_opened id m = (ok tt, record m { opened = remove m.opened id })

unfoldable pub put_opened : String → ℕ → Step (Unit {0})
put_opened id r m = (ok tt, record m { opened = put m.opened id r })

module _ (indy : Indy) where
  unfoldable pub read_clock : Step ℕ
  read_clock m = let now = m.clock + indy.elapse m in (ok now, record m { clock = now })

  -- findOldest
  unfoldable pub find_oldest : Step String
  find_oldest = do
    now ← read_clock
    m ← gets (λ (m : Mgr). m)
    lift (find_oldest_from m.opened m.handles now "" 0)

  -- Handle.Close: an error is logged, and the handle keeps its number.
  unfoldable pub close : ℕ → Step (Unit {0})
  close r = do
    h ← deref r
    m ← gets (λ (m : Mgr). m)
    elim (indy.close_wallet m h.h) [ none ↦ store r (record h { h = 0 }) | some e ↦ pure tt ]

  -- Handle.reopen: an error is logged, and the number is the zero value.
  unfoldable pub reopen_handle : ℕ → Step ℕ
  reopen_handle r = do
    h ← deref r
    m ← gets (λ (m : Mgr). m)
    elim (indy.open_wallet m h.cfg) [
      | ok n ↦ (do now ← read_clock; store r (record h { h = n; ts = now }); pure n)
      | err e ↦ pure 0
      | panicked ↦ lift panicked
    ]

  -- openNewWallet: an error is logged, and the handle that comes back is nil.
  unfoldable pub open_new_wallet : WalletCfg → Step (Option ℕ)
  open_new_wallet cfg = do
    m ← gets (λ (m : Mgr). m)
    elim (indy.open_wallet m cfg) [
      | ok n ↦ (do
        now ← read_clock
        r ← gets (λ (m : Mgr). length m.handles)
        modify (λ (m : Mgr). record m {
          handles = m.handles ++ record { ts = now; h = n; cfg = cfg } ∷ [];
        })
        put_opened cfg.unique_id r
        (if cfg.wants_backup
            then modify (λ (m : Mgr). record m { sent = m.sent ++ r ∷ [] })
            else pure tt)
        pure (some r))
      | err e ↦ pure none
      | panicked ↦ lift panicked
    ]

  unfoldable pub close_oldest_and_open : WalletCfg → Step (Option ℕ)
  close_oldest_and_open cfg = do
    oldest ← find_oldest
    w ← opened_at oldest
    delete_opened oldest
    close w
    open_new_wallet cfg

  unfoldable pub close_oldest_and_reopen : ℕ → Step ℕ
  close_oldest_and_reopen r = do
    oldest ← find_oldest
    w ← opened_at oldest
    close w
    delete_opened oldest
    h ← deref r
    put_opened h.cfg.unique_id r
    reopen_handle r

  module _ (max_opened : ℕ) where
    -- Mgr.Open
    unfoldable pub mgr_open : WalletCfg → Step (Option ℕ)
    mgr_open cfg = do
      n ← gets (λ (m : Mgr). length m.opened)
      (if ltb n max_opened then open_new_wallet cfg else close_oldest_and_open cfg)

    -- Mgr.reopen
    unfoldable pub reopen : ℕ → Step ℕ
    reopen r = do
      n ← gets (λ (m : Mgr). length m.opened)
      (if ltb n max_opened
          then (do h ← deref r; put_opened h.cfg.unique_id r; reopen_handle r)
          else close_oldest_and_reopen r)

    -- Handle.Handle: the number of the open wallet, which is opened first where it is closed.
    unfoldable pub handle : ℕ → Step ℕ
    handle r = do
      h ← deref r
      (if eqb h.h 0
          then reopen r
          else (do now ← read_clock; store r (record h { ts = now }); pure h.h))

-- The loop of Reset.
unfoldable pub close_all : Indy → Table String ℕ → Step (Unit {0})
close_all indy [] = pure tt
close_all indy ((s, r) ∷ opened) = close indy r >> close_all indy opened

unfoldable pub reset : Indy → Step (Unit {0})
reset indy = do
  opened ← gets (λ (m : Mgr). m.opened)
  close_all indy opened
  modify (λ (m : Mgr). record m { opened = [] })
