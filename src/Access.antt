-- ===== src/Access.antt =====
-- agent/accessmgr/accessmgr.go: the wallets that were opened since the last backup. The input channel has
-- a buffer of ten; the manager's goroutine is a step that receives one wallet, and a backup that is started
-- is the map that it goes through.
use Prim.Native.String.{◌++◌ as append}
use findy_agent.Common.{
  ℕ, String, Bool, true, false, ◌||◌, ◌≡◌, refl, Option, none, some, List, [], ◌∷◌, ◌++◌, length,
  if◌then◌else◌, ltb, ◌==◌, ◌<◌, arith, eq_refl, Bool-cases, inl, inr,
}
use findy_agent.Common.Table.{Table, string_eq, get, put, get-put}
use findy_agent.Common.Exec.{Error, Outcome, ok}
use findy_agent.Prot.World.{Fault, failing}

-- managed.Wallet, with its configuration
pub record ManagedWallet : Type 0 where
  pub unique_id : String
  pub id : String
  pub key : String
  pub handle : ℕ

pub record Access : Type 0 where
  pub input : List ManagedWallet
  pub accessed : Table String ManagedWallet
  pub enabled : Bool
  pub started : Bool
  pub backups : List (Table String ManagedWallet)

-- What a call does: it returns, or waits for the manager to receive.
pub data Sent : Type 0 where
  sent : Outcome Bool → Access → Sent
  full : Sent

-- Send
unfoldable pub send : Fault → ManagedWallet → Access → Sent
send fault mw s =
    if s.enabled
    then (if s.started
        then (if ltb (length s.input) 10
            then sent (ok true) (record s { input = s.input ++ mw ∷ [] })
            else full)
        else sent (failing fault) s)
    else sent (ok false) s

-- Start, of the setting WalletBackupPath; the goroutine then receives.
unfoldable pub start : Fault → String → Access → Outcome (Unit {0}) × Access
start fault backup_path s =
    if backup_path == ""
    then (failing fault, record s { enabled = false })
    else (ok tt, record s { enabled = true; started = true })

-- One round of the manager's loop; it waits where nothing has been sent.
unfoldable pub received_wallet : List ManagedWallet → Access → Access
received_wallet [] s = s
received_wallet (w ∷ ws) s = record s { input = ws; accessed = put s.accessed w.unique_id w }

unfoldable pub receive : Access → Access
unfolding received_wallet
receive s = received_wallet s.input s

-- StartBackup
unfoldable pub start_backup : Access → Access
start_backup s =
    if s.enabled then record s { accessed = []; backups = s.backups ++ s.accessed ∷ [] } else s

-- wallet.Credentials
pub record ExportCredentials : Type 0 where
  pub path : String
  pub key : String
  pub key_derivation_method : String

-- backupName, of the time as a text
unfoldable pub backup_file : Bool → String → String → String
backup_file date_time_in_name now base_name =
    if date_time_in_name then append now (append "_" base_name) else base_name

-- BuildExportCredentials; joining a path is a parameter.
unfoldable pub build_export_credentials :
    (String → String → String) → String → Bool → String → ManagedWallet → ExportCredentials
unfolding backup_file
build_export_credentials join backup_path date_time_in_name now w = record {
  path = join backup_path (backup_file date_time_in_name now w.id);
  key = w.key;
  key_derivation_method = "RAW";
}

-- runBackup: what the export of each wallet answers; an error is only logged.
unfoldable pub run_backup :
    (ManagedWallet → Option Error) → Table String ManagedWallet → List (String × Option Error)
run_backup export [] = []
run_backup export ((id, w) ∷ m) = let rest = run_backup export m in (id, export w) ∷ rest

-- A wallet has been sent and waits, is registered, or is in a backup.
unfoldable pub waits : String → List ManagedWallet → Bool
waits id [] = false
waits id (w ∷ ws) = (w.unique_id == id) || waits id ws

abbrev pub is_registered : Option ManagedWallet → Bool
is_registered none = false
is_registered (some w) = true

unfoldable pub in_backups : String → List (Table String ManagedWallet) → Bool
in_backups id [] = false
in_backups id (m ∷ ms) = is_registered (get m id) || in_backups id ms

unfoldable pub covered : String → Access → Bool
covered id s = waits id s.input || is_registered (get s.accessed id) || in_backups id s.backups

waits-append :
    (id : String) (ws : List ManagedWallet) (w : ManagedWallet)
    → waits id (ws ++ w ∷ []) ≡ (waits id ws || w.unique_id == id)
unfolding waits
waits-append id [] w = ground arith
waits-append id (v ∷ ws) w = ground (arith, waits-append id ws w)

in_backups-append :
    (id : String) (ms : List (Table String ManagedWallet)) (m : Table String ManagedWallet)
    → in_backups id (ms ++ m ∷ []) ≡ (in_backups id ms || is_registered (get m id))
unfolding in_backups
in_backups-append id [] m = ground arith
in_backups-append id (n ∷ ms) m = ground (arith, in_backups-append id ms m)

received_covered :
    (id : String) (ws : List ManagedWallet) (s : Access)
    → s.input ≡ ws
    → covered id s ≡ true
    → covered id (received_wallet ws s) ≡ true
unfolding covered received_wallet waits
received_covered id [] s e h = h
received_covered id (w ∷ ws) s e h = ground (arith, rw e at h, get-put s.accessed w.unique_id id w)

-- What happens to the manager.
pub data Move : Type 0 where
  by_send : ManagedWallet → Move
  by_receive by_backup : Move

-- A send that has to wait changes nothing.
unfoldable pub state_after : Sent → Access → Access
state_after (sent r s') s = s'
state_after full s = s

unfoldable pub move : Fault → Move → Access → Access
move fault (by_send w) s = state_after (send fault w s) s
move fault by_receive s = receive s
move fault by_backup s = start_backup s

unfoldable pub moves : Fault → List Move → Access → Access
moves fault [] s = s
moves fault (m ∷ ms) s = moves fault ms (move fault m s)

still_after_send :
    (fault : Fault) (id : String) (w : ManagedWallet) (s : Access)
    → covered id s ≡ true
    → covered id (state_after (send fault w s) s) ≡ true
unfolding send state_after covered
still_after_send fault id w s h = elim (Bool-cases s.enabled) [
  | inr off ↦ rw off h
  | inl on ↦ elim (Bool-cases s.started) [
    | inr off ↦ rw (on, off) h
    | inl running ↦ elim (Bool-cases (ltb (length s.input) 10)) [
      | inr out ↦ rw (on, running, out) h
      | inl room ↦ rw (on, running, room) (ground (arith, h, waits-append id s.input w))
    ]
  ]
]

backup_covered :
    (id : String) (s : Access) → covered id s ≡ true → covered id (start_backup s) ≡ true
unfolding covered start_backup get
backup_covered id s h = elim (Bool-cases s.enabled) [
  | inr off ↦ rw off h
  | inl on ↦ rw on (ground (arith, h, in_backups-append id s.backups s.accessed))
]

still_after_all :
    (fault : Fault) (id : String) (ms : List Move) (s : Access)
    → covered id s ≡ true
    → covered id (moves fault ms s) ≡ true
unfolding moves move receive
still_after_all fault id [] s h = h
still_after_all fault id (by_send w ∷ ms) s h =
    still_after_all fault id ms (state_after (send fault w s) s) (still_after_send fault id w s h)
still_after_all fault id (by_receive ∷ ms) s h =
    still_after_all fault id ms (receive s) (received_covered id s.input s refl h)
still_after_all fault id (by_backup ∷ ms) s h =
    still_after_all fault id ms (start_backup s) (backup_covered id s h)

-- A wallet that was sent to the manager waits, is registered for the next backup or is in one, whatever
-- is sent, received and backed up after it.
pub send-covered :
    (fault : Fault) (w : ManagedWallet) (s : Access)
    → s.enabled ≡ true
    → s.started ≡ true
    → length s.input < 10
    → (ms : List Move) → covered w.unique_id (moves fault (by_send w ∷ ms) s) ≡ true
unfolding moves move send state_after covered
send-covered fault w s on running room ms =
    let room' : ltb (length s.input) 10 ≡ true = ground (arith, room) in
    still_after_all fault w.unique_id ms (state_after (send fault w s) s) (
      rw (on, running, room')
        (ground (arith, waits-append w.unique_id s.input w, eq_refl w.unique_id)))
