-- ===== src/Agency/Register.antt =====
-- agent/utils/register.go and agent/agency/register.go: the register of the agents that are on board,
-- which is kept in a file. JSON is a parameter, and so are the failures of the file system.
use findy_agent.Common.{
  ℕ, ◌-◌, String, Bool, true, false, Option, none, some, List, [], ◌∷◌, if◌then◌else◌, eqb, leb,
  ◌==◌,
}
use findy_agent.Common.Table.{Table, string_eq, get, put}
use findy_agent.Common.Exec.{
  Error, Outcome, ok, err, panicked, Exec, lift, modify, gets, ◌>>=◌, ◌>>◌,
}
use findy_agent.Agency.{has_key}

abbrev pub Entries : Type 0
Entries = Table String (List String)

-- The register, the files, the clock, and the settings of the register.
pub record Office : Type 0 where
  pub entries : Entries
  pub files : Table String String
  pub ready : Bool
  pub now : ℕ
  pub last_backup : ℕ
  pub register_name : String
  pub backup_interval : ℕ

-- The errors that ReadFile and WriteFile give; that of a missing file is `not_exist`.
pub record Files : Type 0 where
  pub not_exist : Error
  pub read_fault : Office → String → Option Error
  pub write_fault : Office → String → Option Error
  pub entries_json : Entries → Outcome String
  pub read_entries : String → Outcome Entries

-- Reg.Exist
unfoldable pub exist : String → Office → Bool
exist key s = has_key (get s.entries key)

-- Reg.Add
unfoldable pub add_entry : String → List String → Office → Office
add_entry key value s = record s { entries = put s.entries key value }

-- Reg.EnumValues: what the handler is called with, until it says no.
unfoldable pub enum_values : (String → List String → Bool) → Entries → Entries
enum_values handler [] = []
enum_values handler ((k, v) ∷ es) =
    let rest = enum_values handler es in (k, v) ∷ (if handler k v then rest else [])

module _ (lib : Files) where
  -- readJSONFile: the text, or the error and whether it is that of a missing file.
  unfoldable pub read_json_file : String → Office → Outcome String × Bool
  read_json_file name s = elim (get s.files name) [
    | none ↦ (err lib.not_exist, true)
    | some text ↦ (elim (lib.read_fault s name) [ none ↦ ok text | some e ↦ err e ], false)
  ]

  -- writeJSONFile
  unfoldable pub write_json_file : String → String → Exec Office (Unit {0})
  write_json_file name json s = elim (lib.write_fault s name) [
    | none ↦ (ok tt, record s { files = put s.files name json })
    | some e ↦ (err e, s)
  ]

  -- newReg: a text that is not JSON panics.
  unfoldable pub new_reg : String → Outcome Entries
  new_reg text = elim (lib.read_entries text) [
    | ok es ↦ ok es
    | err e ↦ panicked
    | panicked ↦ panicked
  ]

  unfoldable pub first_read : String → Outcome String × Bool → Exec Office String
  first_read filename (r, true) = do
    write_json_file filename "{}"
    again ← gets (λ s. read_json_file filename s)
    lift again.0
  first_read filename (r, false) = lift r

  -- Reg.Load
  unfoldable pub load : String → Exec Office (Unit {0})
  load filename = if filename == "" then modify (λ s. record s { entries = [] }) else (do
    r ← gets (λ s. read_json_file filename s)
    text ← first_read filename r
    es ← lift (new_reg text)
    modify (λ s. record s { entries = es }))

  -- Reg.Save
  unfoldable pub save : String → Exec Office (Unit {0})
  save filename = do
    es ← gets (λ s. s.entries)
    text ← lift (lib.entries_json es)
    write_json_file filename text

  -- Reg.Reset
  unfoldable pub reset : String → Exec Office (Unit {0})
  reset filename = do load ""; save filename

  -- timeToBackup
  unfoldable pub time_to_backup : Office → Bool
  time_to_backup s =
      if eqb s.backup_interval 0 then false else leb s.backup_interval (s.now - s.last_backup)

  -- SaveRegistered: whether a goroutine makes a backup; the error of saving is only logged.
  unfoldable pub save_registered : Exec Office Bool
  save_registered s =
      let (r, s') = save s.register_name s in
      elim r [
        | ok u ↦ (ok (time_to_backup s'), s')
        | err e ↦ (ok false, s')
        | panicked ↦ (panicked, s')
      ]

  -- ResetRegistered
  unfoldable pub reset_registered : String → Exec Office (Unit {0})
  reset_registered filename = do
    modify (λ s. record s { register_name = filename; ready = true })
    reset filename

-- readyTracker.RegisteringComplete and IsReady
unfoldable pub registering_complete : Office → Office
registering_complete s = record s { ready = true }

unfoldable pub registered_ready : Office → Bool
registered_ready s = s.ready
