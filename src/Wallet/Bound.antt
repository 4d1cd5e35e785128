-- ===== src/Wallet/Bound.antt =====
-- The size of the manager's table (agent/ssi/walletmgr.go). It is not the number of open wallets: a wallet
-- that fails to close stays open outside the table.
use mathlib.Core.Path.{subst}
use findy_agent.Common.{
  ℕ, ◌≤◌, String, ◌≡◌, sym, ◌∙◌, ap, inl, inr, some, length, ltb, arith, if◌then◌else◌, Bool-cases,
  Option-cases, eqb,
}
use findy_agent.Common.Table.{string_eq, get, put, remove, length-put_le}
use findy_agent.Common.Exec.{pure, Outcome, ok, err, panicked, ◌>>=◌, ◌>>◌, proceed}
use findy_agent.Wallet.{
  Mgr, Handle, Indy, WalletCfg, deref, store, opened_at, delete_opened, put_opened, read_clock,
  find_oldest, close, reopen_handle, open_new_wallet, close_oldest_and_open,
  close_oldest_and_reopen, mgr_open, reopen, handle,
}
use findy_agent.Wallet.Rules.{
  Bounded, Leaves, Adds, ltb_sound, length-remove_lt, Bounded-bind, Leaves-Adds, Leaves-Bounded,
  Bounded-if,
}

module _ (indy : Indy) where
  close-Leaves : (r : ℕ) → Leaves (close indy r)
  unfolding close deref store
  close-Leaves r = record { at = λ s. ground arith }

  reopen_handle-Leaves : (r : ℕ) → Leaves (reopen_handle indy r)
  unfolding reopen_handle deref store read_clock
  reopen_handle-Leaves r = record { at = λ s. ground arith }

  find_oldest-Leaves : Leaves (find_oldest indy)
  unfolding find_oldest read_clock
  find_oldest-Leaves = record { at = λ s. ground arith }

  open_new_wallet-Adds : (cfg : WalletCfg) → Adds (open_new_wallet indy cfg)
  unfolding open_new_wallet read_clock put_opened
  open_new_wallet-Adds cfg = record {
    at = λ s. ground (arith, length-put_le s.opened cfg.unique_id (length s.handles));
  }

  deref-Leaves : (r : ℕ) → Leaves (deref r)
  unfolding deref
  deref-Leaves r = record { at = λ s. ground arith }

  put_reopen-Adds : (id : String) (r : ℕ) → Adds (put_opened id r >> reopen_handle indy r)
  unfolding put_opened
  put_reopen-Adds id r = record {
    at = λ s.
        rw ((reopen_handle-Leaves r).at (record s { opened = put s.opened id r }))
          (length-put_le s.opened id r);
  }

  replace_open :
      (n : ℕ) (oldest : String) (cfg : WalletCfg)
      → Bounded n
          (do w ← opened_at oldest; delete_opened oldest; close indy w; open_new_wallet indy cfg)
  unfolding opened_at delete_opened
  replace_open n oldest cfg = record {
    at = λ s l. elim (Option-cases (get s.opened oldest)) [
      | inl e ↦ rw (e, opened_at, ◌>>=◌) l
      | inr (w, e) ↦
          (let s' = record s { opened = remove s.opened oldest } in
            rw (e, opened_at, delete_opened, ◌>>=◌)
              (omega (
                arith,
                (Leaves-Adds (close indy w) (λ _. open_new_wallet indy cfg) (close-Leaves w)
                      (λ _. open_new_wallet-Adds cfg)).at
                    s',
                length-remove_lt s.opened oldest w e,
              )))
    ];
  }

  close_oldest_and_open-Bounded :
      (n : ℕ) (cfg : WalletCfg) → Bounded n (close_oldest_and_open indy cfg)
  unfolding close_oldest_and_open
  close_oldest_and_open-Bounded n cfg =
      Bounded-bind n (find_oldest indy)
        (λ oldest. do
          w ← opened_at oldest
          delete_opened oldest
          close indy w
          open_new_wallet indy cfg)
        (Leaves-Bounded n (find_oldest indy) find_oldest-Leaves)
        (λ oldest. replace_open n oldest cfg)

  mgr_open-Bounded :
      (max_opened : ℕ) (cfg : WalletCfg) → Bounded max_opened (mgr_open indy max_opened cfg)
  unfolding mgr_open
  mgr_open-Bounded max_opened cfg = record {
    at = λ s l. elim (Bool-cases (ltb (length s.opened) max_opened)) [
      | inl e ↦
          rw (e, mgr_open, ◌>>=◌)
            (omega
              (arith, (open_new_wallet-Adds cfg).at s, ltb_sound (length s.opened) max_opened e))
      | inr e ↦ rw (e, mgr_open, ◌>>=◌) ((close_oldest_and_open-Bounded max_opened cfg).at s l)
    ];
  }

  reopen_rest-Adds :
      (r : ℕ) → Adds (do h ← deref r; put_opened h.cfg.unique_id r; reopen_handle indy r)
  reopen_rest-Adds r =
      Leaves-Adds (deref r) (λ h. put_opened h.cfg.unique_id r >> reopen_handle indy r)
        (deref-Leaves r) (λ h. put_reopen-Adds h.cfg.unique_id r)

  reopen_closed :
      (n : ℕ) (oldest : String) (r w v : ℕ) (s : Mgr) (o : Outcome (Unit {0}))
      → get s.opened oldest ≡ some v
      → length s.opened ≤ n
      → length
          (proceed o
            (λ _. (do
              delete_opened oldest
              h ← deref r
              put_opened h.cfg.unique_id r
              reopen_handle indy r))
            s).1.opened
        ≤ n
  unfolding delete_opened
  reopen_closed n oldest r w v s (ok tt) e l = omega (
    arith,
    (reopen_rest-Adds r).at (record s { opened = remove s.opened oldest }),
    length-remove_lt s.opened oldest v e,
  )
  reopen_closed n oldest r w v s (err x) e l = l
  reopen_closed n oldest r w v s panicked e l = l

  replace_reopen :
      (n : ℕ) (oldest : String) (r : ℕ)
      → Bounded n (do
        w ← opened_at oldest
        close indy w
        delete_opened oldest
        h ← deref r
        put_opened h.cfg.unique_id r
        reopen_handle indy r)
  unfolding opened_at
  replace_reopen n oldest r = record {
    at = λ s l. elim (Option-cases (get s.opened oldest)) [
      | inl e ↦ rw (e, opened_at, ◌>>=◌) l
      | inr (w, e) ↦
          (let same = (close-Leaves w).at s in
            rw (e, opened_at, ◌>>=◌)
              (reopen_closed n oldest r w w (close indy w s).1 (close indy w s).0
                (ap (λ t. get t oldest) same ∙ e) (subst (λ t. length t ≤ n) (sym same) l)))
    ];
  }

  close_oldest_and_reopen-Bounded : (n r : ℕ) → Bounded n (close_oldest_and_reopen indy r)
  unfolding close_oldest_and_reopen
  close_oldest_and_reopen-Bounded n r =
      Bounded-bind n (find_oldest indy)
        (λ oldest. do
          w ← opened_at oldest
          close indy w
          delete_opened oldest
          h ← deref r
          put_opened h.cfg.unique_id r
          reopen_handle indy r)
        (Leaves-Bounded n (find_oldest indy) find_oldest-Leaves)
        (λ oldest. replace_reopen n oldest r)

  reopen-Bounded : (max_opened r : ℕ) → Bounded max_opened (reopen indy max_opened r)
  unfolding reopen close_oldest_and_reopen
  reopen-Bounded max_opened r = record {
    at = λ s l. elim (Bool-cases (ltb (length s.opened) max_opened)) [
      | inl e ↦
          rw (e, reopen, ◌>>=◌)
            (omega (arith, (reopen_rest-Adds r).at s, ltb_sound (length s.opened) max_opened e))
      | inr e ↦ rw (e, reopen, ◌>>=◌) ((close_oldest_and_reopen-Bounded max_opened r).at s l)
    ];
  }

  touch-Leaves :
      (r : ℕ) (h : Handle)
      → Leaves (do now ← read_clock indy; store r (record h { ts = now }); pure h.h)
  unfolding read_clock store
  touch-Leaves r h = record { at = λ s. ground arith }

  handle-Bounded : (max_opened r : ℕ) → Bounded max_opened (handle indy max_opened r)
  unfolding handle
  handle-Bounded max_opened r =
      Bounded-bind max_opened (deref r)
        (λ h.
          if eqb h.h 0
          then reopen indy max_opened r
          else (do now ← read_clock indy; store r (record h { ts = now }); pure h.h))
        (Leaves-Bounded max_opened (deref r) (deref-Leaves r))
        (λ h.
          Bounded-if max_opened (eqb h.h 0) (reopen indy max_opened r)
            (do now ← read_clock indy; store r (record h { ts = now }); pure h.h)
            (reopen-Bounded max_opened r)
            (Leaves-Bounded max_opened
              (do now ← read_clock indy; store r (record h { ts = now }); pure h.h)
              (touch-Leaves r h)))

-- Opening a new wallet keeps the manager's table within the limit, whatever the wallet library answers.
pub mgr_open_bound :
    (indy : Indy) (max_opened : ℕ) (cfg : WalletCfg) (s : Mgr)
    → length s.opened ≤ max_opened
    → length (mgr_open indy max_opened cfg s).1.opened ≤ max_opened
mgr_open_bound indy max_opened cfg s h = (mgr_open-Bounded indy max_opened cfg).at s h

-- Asking for the number of a wallet keeps the manager's table within the limit, also where the wallet has to
-- be opened again.
pub handle_bound :
    (indy : Indy) (max_opened r : ℕ) (s : Mgr)
    → length s.opened ≤ max_opened
    → length (handle indy max_opened r s).1.opened ≤ max_opened
handle_bound indy max_opened r s h = (handle-Bounded indy max_opened r).at s h
