-- ===== src/Endp.antt =====
-- agent/endp/endpoint.go: the endpoint address of an agent.
pub mod RoundTrip
use Prim.Native.String.{◌++◌ as append}
use Prim.Native.Nat.{◌%◌, ◌/◌}
use findy_agent.Common.{
  ℕ, zero, suc, ◌+◌, ◌*◌, Char, code, String, Bool, true, false, not, ◌&&◌, ◌||◌, Option, none,
  some, List, [], ◌∷◌, split, leb, ltb, eqb, if◌then◌else◌, ◌==◌,
}
use findy_agent.Common.Exec.{Outcome, ok, panicked}

-- `strings.HasSuffix`
unfoldable pub ends_with : String → String → Bool
ends_with String.[] suffix = "" == suffix
ends_with (String.◌∷◌ c s) suffix =
    let rest = ends_with s suffix in if String.◌∷◌ c s == suffix then true else rest

-- `strings.TrimSuffix(s, "/")`
unfoldable pub trim_slash : String → String
trim_slash String.[] = String.[]
trim_slash (String.◌∷◌ c String.[]) =
    if eqb (code c) b'/' then String.[] else String.◌∷◌ c String.[]
trim_slash (String.◌∷◌ c (String.◌∷◌ d s)) = String.◌∷◌ c (trim_slash (String.◌∷◌ d s))

-- `len(s)`: a Go string is measured in the bytes of its UTF-8 form.
abbrev pub char_bytes : ℕ → ℕ
char_bytes c = if ltb c 0x80 then 1 else if ltb c 0x800 then 2 else if ltb c 0x10000 then 3 else 4

unfoldable pub byte_length : String → ℕ
byte_length String.[] = 0
byte_length (String.◌∷◌ c s) = char_bytes (code c) + byte_length s

pub record Addr : Type 0 where
  pub id : ℕ
  pub service : String
  pub pl_rcvr : String
  pub msg_rcvr : String
  pub conn_id : String
  pub edge_token : String
  pub base_path : String
  pub ver_key : String
  pub v2_api : Bool

abbrev pub version2_endp_suffix : String
version2_endp_suffix = "-2"

-- new(Addr)
abbrev pub new_addr : Addr
new_addr = record {
  id = 0;
  service = "";
  pl_rcvr = "";
  msg_rcvr = "";
  conn_id = "";
  edge_token = "";
  base_path = "";
  ver_key = "";
  v2_api = false;
}

-- The `switch` on a part's position.
unfoldable pub set_part : ℕ → String → Addr → Addr
set_part i part ea =
    if eqb i 1
    then record ea { service = part; v2_api = ends_with part version2_endp_suffix }
    else if eqb i 2
    then record ea { pl_rcvr = part }
    else if eqb i 3
    then record ea { msg_rcvr = part }
    else if eqb i 4
    then record ea { conn_id = part }
    else if eqb i 5
    then record ea { edge_token = part }
    else ea

-- The loop over the parts.
unfoldable pub set_parts : ℕ → List String → Addr → Addr
set_parts i [] ea = ea
set_parts i (part ∷ parts) ea = set_parts (i + 1) parts (set_part i part ea)

-- NewServerAddr
unfoldable pub new_server_addr : String → Addr
new_server_addr s = set_parts 0 (split b'/' s) new_addr

-- NewClientAddr; `url.Parse` gives the scheme, the host and the path, and no URL where it fails.
pub record Url : Type 0 where
  pub scheme : String
  pub host : String
  pub path : String

unfoldable pub new_client_addr : (String → Option Url) → String → Outcome Addr
new_client_addr parse s = elim (parse s) [
  | none ↦ panicked
  | some u ↦ ok (
      set_parts 0 (split b'/' u.path)
        (record new_addr { base_path = append u.scheme (append "://" u.host) }))
]

abbrev pub with_key : String → Outcome Addr → Outcome Addr
with_key verkey (ok addr) = ok (record addr { ver_key = verkey })
with_key verkey r = r

-- NewClientAddrWithKey
unfoldable pub new_client_addr_with_key : (String → Option Url) → String → String → Outcome Addr
new_client_addr_with_key parse full_url verkey = with_key verkey (new_client_addr parse full_url)

-- service.Addr
pub record ServiceAddr : Type 0 where
  pub endp : String
  pub key : String

-- NewAddrFromPublic
unfoldable pub new_addr_from_public : (String → Option Url) → ServiceAddr → Outcome Addr
new_addr_from_public parse ae = new_client_addr_with_key parse ae.endp ae.key

abbrev pub endpoints : List String
endpoints = "ping" ∷ "handshake" ∷ []

-- The loop of IsInEndpoints.
unfoldable pub in_names : List String → String → Bool
in_names [] endpoint_name = false
in_names (name ∷ names) endpoint_name =
    let rest = in_names names endpoint_name in if name == endpoint_name then true else rest

unfoldable pub is_in_endpoints : String → Bool
unfolding in_names
is_in_endpoints endpoint_name = in_names endpoints endpoint_name

-- The class `[1-9A-HJ-NP-Za-km-z]`.
abbrev pub between : ℕ → ℕ → ℕ → Bool
between lo hi c = leb lo c && leb c hi

unfoldable pub is_base58 : ℕ → Bool
is_base58 c =
    between b'1' b'9' c
    || between b'A' b'H' c
    || between b'J' b'N' c
    || between b'P' b'Z' c
    || between b'a' b'k' c
    || between b'm' b'z' c

-- The regular expression: `^` and then at least this many characters of the class. It has no `$`.
unfoldable pub matches_class : ℕ → String → Bool
matches_class zero s = true
matches_class (suc n) String.[] = false
matches_class (suc n) (String.◌∷◌ c s) = let rest = matches_class n s in is_base58 (code c) && rest

abbrev pub did_length_min : ℕ
did_length_min = 21

abbrev pub did_length_max : ℕ
did_length_max = 22

unfoldable pub is_did : String → Bool
unfolding matches_class
is_did did =
    let l = byte_length did in
    leb did_length_min l && leb l did_length_max && matches_class did_length_min did

-- `is_uuid` is `uuid.Parse(id)` without an error.
unfoldable pub valid : (String → Bool) → Addr → Bool
valid is_uuid e =
    if is_in_endpoints e.pl_rcvr
    then true
    else is_did e.pl_rcvr && is_did e.msg_rcvr && is_uuid e.conn_id

unfoldable pub receiver_did : Addr → String
receiver_did e = if e.msg_rcvr == "" then e.pl_rcvr else e.msg_rcvr

-- `basePath += "/" + part` where the part is not empty.
abbrev pub add_part : String → String → String
add_part base part = if part == "" then base else append base (String.◌∷◌ "/" part)

unfoldable pub address : Addr → String
address e =
    let base = append e.base_path (append "/" (append e.service (append "/" e.pl_rcvr))) in
    trim_slash (add_part (add_part (add_part base e.msg_rcvr) e.conn_id) e.edge_token)

unfoldable pub test_address : Addr → String
test_address e =
    let base = append "/" (append e.service (append "/" e.pl_rcvr)) in
    trim_slash (add_part (add_part base e.msg_rcvr) e.conn_id)

unfoldable pub is_encrypted : Addr → Bool
is_encrypted e = not (is_in_endpoints e.pl_rcvr)

unfoldable pub payload_transport_did : Addr → Outcome String
payload_transport_did e = if is_encrypted e then ok e.pl_rcvr else panicked

-- AE
unfoldable pub ae : Addr → ServiceAddr
ae e = record { endp = address e; key = e.ver_key }

-- The little-endian bytes of `binary.LittleEndian.PutUint64`, from the lowest.
unfoldable pub put_uint : ℕ → ℕ → List ℕ
put_uint zero v = []
put_uint (suc n) v = v % 256 ∷ put_uint n (v / 256)

-- Key
unfoldable pub key : Addr → List ℕ
unfolding put_uint
key e = put_uint 8 e.id
